-- ===== src/Snap/Origin.antt =====
-- The origin map of km/raid_km_snap.h and km/raid_km-snapmeta.c: `rk_sn_origin` reads it through a
-- directory of leaves, and `rk_sn_leaf` makes the leaf of a row whose entry changes. No leaf is the
-- identity for the rows of the leaf.
use md_kmec.Base.{
  ℕ, zero, suc, ◌+◌, ◌-◌, ◌*◌, ◌/◌, ◌%◌, ◌≤◌, ◌<◌, ◌≡◌, refl, List, [], ◌∷◌, Option, none, some,
  Option-cases, inl, inr, length, get_or, set, at, get_or-set, length-set, ◌==◌, if◌then◌else◌,
  arith, Bool-cases,
}

-- `RK_SN_LEAF`.
abbrev pub leaf_rows : ℕ
leaf_rows = 1024

abbrev pub Directory : Type 0
Directory = List (Option (List ℕ))

-- The rows `base`, `base + 1`, ..., as `rk_sn_leaf` fills a new leaf.
unfoldable pub identity_leaf : ℕ → ℕ → List ℕ
identity_leaf zero base = []
identity_leaf (suc n) base = base ∷ identity_leaf n (base + 1)

abbrev pub leaf_of : Directory → ℕ → Option (List ℕ)
leaf_of odir d = get_or odir d none

abbrev pub through : Option (List ℕ) → ℕ → ℕ
through none row = row
through (some leaf) row = at leaf (row % leaf_rows)

-- `rk_sn_origin`.
unfoldable pub origin : Directory → ℕ → ℕ
origin odir row = through (leaf_of odir (row / leaf_rows)) row

abbrev pub or_identity : Option (List ℕ) → ℕ → List ℕ
or_identity none row = identity_leaf leaf_rows (row - row % leaf_rows)
or_identity (some leaf) row = leaf

-- `rk_sn_leaf`: the leaf that holds the row, whether or not it is there yet.
unfoldable pub rk_sn_leaf : Directory → ℕ → List ℕ
rk_sn_leaf odir row = or_identity (leaf_of odir (row / leaf_rows)) row

-- The entry of a row is written into its leaf.
unfoldable pub put_origin : Directory → ℕ → ℕ → Directory
unfolding rk_sn_leaf
put_origin odir row phys =
    set odir (row / leaf_rows) (some (set (rk_sn_leaf odir row) (row % leaf_rows) phys))

-- There is an entry for every leaf, and every leaf is whole.
pub record IsDirectory (rows : ℕ) (odir : Directory) : Type 0 where
  pub entries : rows ≤ length odir * leaf_rows
  pub whole : (d : ℕ) (leaf : List ℕ) → leaf_of odir d ≡ some leaf → length leaf ≡ leaf_rows

length-identity_leaf : (n base : ℕ) → length (identity_leaf n base) ≡ n
unfolding identity_leaf
length-identity_leaf zero base = refl
length-identity_leaf (suc n) base = omega (arith, length-identity_leaf n (base + 1))

at-identity_leaf : (n base i : ℕ) → i < n → at (identity_leaf n base) i ≡ base + i
unfolding identity_leaf
at-identity_leaf zero base i h = absurd (omega arith)
at-identity_leaf (suc n) base zero h = omega arith
at-identity_leaf (suc n) base (suc i) h =
    omega (arith, at-identity_leaf n (base + 1) i (omega arith))

leaf_length :
    (rows : ℕ) (odir : Directory) (row : ℕ)
    → IsDirectory rows odir
    → length (rk_sn_leaf odir row) ≡ leaf_rows
unfolding rk_sn_leaf
leaf_length rows odir row w = elim (Option-cases (leaf_of odir (row / leaf_rows))) [
  | inl e ↦ rw e (length-identity_leaf leaf_rows (row - row % leaf_rows))
  | inr (leaf, e) ↦ rw e (w.whole (row / leaf_rows) leaf e)
]

-- The leaf reads as the map does, for the rows of the leaf.
at-leaf :
    (odir : Directory) (row other : ℕ)
    → row / leaf_rows ≡ other / leaf_rows
    → at (rk_sn_leaf odir row) (other % leaf_rows) ≡ origin odir other
unfolding rk_sn_leaf origin
at-leaf odir row other same = elim (Option-cases (leaf_of odir (row / leaf_rows))) [
  | inl e ↦ rw (← same) (
      rw e (
        omega (
          arith,
          at-identity_leaf leaf_rows (row - row % leaf_rows) (other % leaf_rows) (omega arith),
        )))
  | inr (leaf, e) ↦ rw (← same) (rw e refl)
]

entry_within :
    (rows : ℕ) (odir : Directory) (row : ℕ)
    → IsDirectory rows odir
    → row < rows
    → row / leaf_rows < length odir
entry_within rows odir row w h = omega (arith, w.entries)

-- A write of an entry changes this entry and no other.
pub origin-put_origin :
    (rows : ℕ) (odir : Directory) (row phys other : ℕ)
    → IsDirectory rows odir
    → row < rows
    → origin (put_origin odir row phys) other ≡ (if row == other then phys else origin odir other)
unfolding origin put_origin
origin-put_origin rows odir row phys other w h =
    let leaf = rk_sn_leaf odir row in
    let i = row % leaf_rows in
    rw
      (get_or-set odir (row / leaf_rows) (other / leaf_rows) (some (set leaf i phys)) none
        (entry_within rows odir row w h))
      (elim (Bool-cases (row / leaf_rows == other / leaf_rows)) [
        | inl e ↦ rw e (
            rw
              (get_or-set leaf i (other % leaf_rows) phys 0
                (omega (arith, leaf_length rows odir row w)))
              (ground (arith, at-leaf odir row other)))
        | inr e ↦ rw e (ground (arith, e))
      ])

pub put_origin-IsDirectory :
    (rows : ℕ) (odir : Directory) (row phys : ℕ)
    → IsDirectory rows odir
    → row < rows
    → IsDirectory rows (put_origin odir row phys)
unfolding put_origin
put_origin-IsDirectory rows odir row phys w h = record {
  entries = rw length-set w.entries;
  whole = λ d leaf e. ground (
    arith,
    get_or-set odir (row / leaf_rows) d (some (set (rk_sn_leaf odir row) (row % leaf_rows) phys))
        none (entry_within rows odir row w h),
    length-set (rk_sn_leaf odir row) (row % leaf_rows) phys,
    leaf_length rows odir row w,
    w.whole d leaf,
  );
}
