-- ===== src/Dcl/Tables/Inverse.antt =====
-- `dcl_geom_tables` fills every slice of both tables, for any seed.
use native.Mathlib.Nat.{mul-le-mul_right}
use md_kmec.Base.{
  ℕ, zero, suc, ◌+◌, ◌-◌, ◌*◌, ◌≤◌, ◌<◌, ◌≡◌, ◌∙◌, inl, List, at, length, subst, dec_lt, arith,
}
use md_kmec.Dcl.Geom.{Geom, IsGeom}
use md_kmec.Dcl.Perm.{gen_base_perm, seed_for_base}
use md_kmec.Dcl.Perm.Shuffle.{IsBijection, gen_base_perm-IsBijection}
use md_kmec.Dcl.Tables.{write_at, invert_from, tables_step, tables_from, geom_tables}
use md_kmec.Dcl.Tables.Slice.{
  IsSlice, length-write_at, at-write_at, invert_from-outside, length-invert_from,
  invert_from-IsSlice,
}

-- The arrays have room for `nbase` slices, as `kvmalloc_array` gave it.
pub record HasRoom (ge : Geom) : Type 0 where
  pub base_room : length ge.base ≡ ge.nbase * ge.n
  pub ibase_room : length ge.ibase ≡ ge.nbase * ge.n

-- The first `b` slices are filled.
pub record Filled (ge : Geom) (b : ℕ) : Type 0 where
  pub room : HasRoom ge
  pub slice : (e : ℕ) → e < b → IsSlice ge.n ge.base ge.ibase (e * ge.n)

-- Every base shuffle and its inverse are in place.
abbrev pub HasTables : Geom → Type 0
HasTables ge = Filled ge ge.nbase

IsSlice-ext :
    {n off : ℕ} {base ibase base' ibase' : List ℕ}
    → ((i : ℕ) → i < n → at base' (off + i) ≡ at base (off + i))
    → ((i : ℕ) → i < n → at ibase' (off + i) ≡ at ibase (off + i))
    → IsSlice n base ibase off
    → IsSlice n base' ibase' off
IsSlice-ext {off} {base} {ibase} p q s = record {
  base_in = λ c h. ground (arith, p c, s.base_in c);
  ibase_in = λ d h. ground (arith, q d, s.ibase_in d);
  ibase-base = λ c h. ground (arith, p c, q (at base (off + c)), s.base_in c, s.ibase-base c);
  base-ibase = λ d h. ground (arith, q d, p (at ibase (off + d)), s.ibase_in d, s.base-ibase d);
}

slice_le : {e b : ℕ} (n : ℕ) → e < b → e * n + n ≤ b * n
slice_le {e} {b} n h = omega (arith, mul-le-mul_right n h)

pub columns_pos : {ge : Geom} → IsGeom ge → 0 < ge.n
columns_pos {ge} v =
    omega (arith, mul-le-mul_right ge.g v.groups_pos, v.data_pos, v.width, v.columns)

add-sub_left : (a b : ℕ) → a + b - a ≡ b
add-sub_left a b = omega arith

module _ (ge : Geom) (b : ℕ) (v : IsGeom ge) (h : b < ge.nbase) (f : Filled ge b) where
  abbrev perm : List ℕ
  perm = gen_base_perm ge.n (seed_for_base ge.seed b)

  pool_pos : 0 < ge.n
  pool_pos = omega (arith, columns_pos v)

  perm-IsBijection : IsBijection ge.n perm
  perm-IsBijection =
      gen_base_perm-IsBijection ge.n (seed_for_base ge.seed b) pool_pos (omega (arith, v.pool_max))

  abbrev base' : List ℕ
  base' = write_at ge.base (b * ge.n) perm

  base_fits : b * ge.n + length perm ≤ length ge.base
  base_fits = omega (arith, slice_le ge.n h, perm-IsBijection.size, f.room.base_room)

  at-base' : (c : ℕ) → c < ge.n → at base' (b * ge.n + c) ≡ at perm c
  at-base' c hc = ground (
    arith,
    at-write_at ge.base (b * ge.n) perm (b * ge.n + c) base_fits,
    perm-IsBijection.size,
    add-sub_left (b * ge.n) c,
  )

  at-base'_outside : (i : ℕ) → i < b * ge.n → at base' i ≡ at ge.base i
  at-base'_outside i hi = ground (arith, at-write_at ge.base (b * ge.n) perm i base_fits)

  room' : b * ge.n + ge.n ≤ length ge.ibase
  room' = omega (arith, slice_le ge.n h, f.room.ibase_room)

  old-IsSlice :
      (e : ℕ) → e < b → IsSlice ge.n base' (invert_from base' (b * ge.n) ge.n 0 ge.ibase) (e * ge.n)
  old-IsSlice e he =
      let below = slice_le ge.n he in
      IsSlice-ext (λ i p. at-base'_outside (e * ge.n + i) (omega arith))
        (λ i p.
          invert_from-outside perm-IsBijection base' (b * ge.n) at-base' ge.n 0 ge.ibase
            (e * ge.n + i) (omega arith) room' (inl (omega arith)))
        (f.slice e he)

  new-IsSlice : IsSlice ge.n base' (invert_from base' (b * ge.n) ge.n 0 ge.ibase) (b * ge.n)
  new-IsSlice = invert_from-IsSlice perm-IsBijection base' (b * ge.n) at-base' ge.ibase room'

  tables_step-Filled : Filled (tables_step ge b) (b + 1)
  unfolding tables_step
  tables_step-Filled = record {
    room = record {
      base_room = length-write_at ge.base (b * ge.n) perm ∙ f.room.base_room;
      ibase_room =
          length-invert_from perm-IsBijection base' (b * ge.n) at-base' ge.n 0 ge.ibase
          ∙ f.room.ibase_room;
    };
    slice = λ e he. elim (dec_lt e b) [
      | yes p ↦ old-IsSlice e p
      | no p ↦
          let same : b ≡ e = omega arith in
          subst (λ x. IsSlice ge.n base' (invert_from base' (b * ge.n) ge.n 0 ge.ibase) (x * ge.n))
            same new-IsSlice
    ];
  }

-- A round changes no scalar field.
tables_step-IsGeom : {ge : Geom} (b : ℕ) → IsGeom ge → IsGeom (tables_step ge b)
unfolding tables_step
tables_step-IsGeom b v = omega (arith, v)

tables_from-Filled :
    (left b : ℕ) (ge : Geom)
    → IsGeom ge
    → b + left ≡ ge.nbase
    → Filled ge b
    → Filled (tables_from left b ge) (tables_from left b ge).nbase
unfolding tables_from
tables_from-Filled zero b ge v e f = let e' : b ≡ ge.nbase = omega arith in subst (Filled ge) e' f
tables_from-Filled (suc left) b ge v e f =
    tables_from-Filled left (b + 1) (tables_step ge b) (tables_step-IsGeom b v)
      (unfold tables_step in omega arith) (tables_step-Filled ge b v (omega arith) f)

-- From a valid geometry with arrays of nbase * N entries, `dcl_geom_tables` leaves in both arrays,
-- for every base shuffle, a permutation of the columns and its inverse, whatever the seed.
pub geom_tables-HasTables : (ge : Geom) → IsGeom ge → HasRoom ge → HasTables (geom_tables ge)
unfolding geom_tables
geom_tables-HasTables ge v r =
    tables_from-Filled ge.nbase 0 ge v (omega arith)
      (record { room = r; slice = λ e h. absurd (omega arith) })

tables_from-IsGeom : (left b : ℕ) {ge : Geom} → IsGeom ge → IsGeom (tables_from left b ge)
unfolding tables_from
tables_from-IsGeom zero b v = v
tables_from-IsGeom (suc left) b v = tables_from-IsGeom left (b + 1) (tables_step-IsGeom b v)

pub geom_tables-IsGeom : {ge : Geom} → IsGeom ge → IsGeom (geom_tables ge)
unfolding geom_tables
geom_tables-IsGeom {ge} v = tables_from-IsGeom ge.nbase 0 v
