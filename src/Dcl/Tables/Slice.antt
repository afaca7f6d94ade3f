-- ===== src/Dcl/Tables/Slice.antt =====
-- One base shuffle in the tables: what the two inner loops write.
use md_kmec.Base.{
  ℕ, zero, suc, ◌+◌, ◌-◌, ◌≤◌, ◌<◌, ◌≡◌, refl, ap, ◌∙◌, ◌⊎◌, List, [], ◌∷◌, at, set, length,
  length-set, get_or-set, arith, if◌then◌else◌, ltb, leb, ◌&&◌,
}
use md_kmec.Dcl.Perm.Shuffle.{IsBijection}
use md_kmec.Dcl.Tables.{write_at, invert_from}

pub length-write_at :
    (tbl : List ℕ) (off : ℕ) (xs : List ℕ) → length (write_at tbl off xs) ≡ length tbl
unfolding write_at
length-write_at tbl off [] = refl
length-write_at tbl off (x ∷ xs) =
    length-write_at (set tbl off x) (off + 1) xs ∙ length-set tbl off x

at-cons : (x : ℕ) (xs : List ℕ) (j : ℕ) → 0 < j → at (x ∷ xs) j ≡ at xs (j - 1)
at-cons x xs zero h = absurd (omega arith)
at-cons x xs (suc j) h = ap (at xs) (omega arith)

-- Inside the slice stand the new entries, and outside the old ones.
pub at-write_at :
    (tbl : List ℕ) (off : ℕ) (xs : List ℕ) (i : ℕ)
    → off + length xs ≤ length tbl
    → at (write_at tbl off xs) i
      ≡ (if leb off i && ltb i (off + length xs) then at xs (i - off) else at tbl i)
unfolding write_at
at-write_at tbl off [] i h = ground arith
at-write_at tbl off (x ∷ xs) i h =
    let rest = at-write_at (set tbl off x) (off + 1) xs i (omega (arith, length-set tbl off x)) in
    ground (arith, rest, get_or-set tbl off i x 0, at-cons x xs (i - off))

-- The slices of the two tables from `off` on are inverse permutations of the numbers below `n`.
pub record IsSlice (n : ℕ) (base ibase : List ℕ) (off : ℕ) : Type 0 where
  pub base_in : (c : ℕ) → c < n → at base (off + c) < n
  pub ibase_in : (d : ℕ) → d < n → at ibase (off + d) < n
  pub ibase-base : (c : ℕ) → c < n → at ibase (off + at base (off + c)) ≡ c
  pub base-ibase : (d : ℕ) → d < n → at base (off + at ibase (off + d)) ≡ d

module _ {n : ℕ} {perm : List ℕ} (b : IsBijection n perm) (base : List ℕ) (off : ℕ)
    (same : (c : ℕ) → c < n → at base (off + c) ≡ at perm c) where
  -- The entries that the inner loop has written when it stands at column `c`.
  abbrev Written : ℕ → List ℕ → Type 0
  Written c ibase = (e : ℕ) → e < c → e < n → at ibase (off + at perm e) ≡ e

  invert_step :
      (c : ℕ) (ibase : List ℕ)
      → c < n
      → off + n ≤ length ibase
      → Written c ibase
      → Written (c + 1) (set ibase (off + at base (off + c)) c)
  invert_step c ibase h room w e he hn = ground (
    arith,
    same c,
    get_or-set ibase (off + at perm c) (off + at perm e) c 0,
    b.in_range c,
    b.pos-at c,
    b.pos-at e,
    w e,
  )

  pub invert_from-Written :
      (left c : ℕ) (ibase : List ℕ)
      → c + left ≡ n
      → off + n ≤ length ibase
      → Written c ibase
      → Written n (invert_from base off left c ibase)
  unfolding invert_from
  invert_from-Written zero c ibase e room w = λ d p q. w d (omega arith) q
  invert_from-Written (suc left) c ibase e room w =
      invert_from-Written left (c + 1) (set ibase (off + at base (off + c)) c) (omega arith)
        (omega (arith, length-set ibase (off + at base (off + c)) c))
        (invert_step c ibase (omega arith) room w)

  pub invert_from-outside :
      (left c : ℕ) (ibase : List ℕ) (i : ℕ)
      → c + left ≡ n
      → off + n ≤ length ibase
      → (i < off) ⊎ (off + n ≤ i)
      → at (invert_from base off left c ibase) i ≡ at ibase i
  unfolding invert_from
  invert_from-outside zero c ibase i e room o = refl
  invert_from-outside (suc left) c ibase i e room o =
      let written = off + at base (off + c) in
      let rest =
        invert_from-outside left (c + 1) (set ibase written c) i (omega arith)
          (omega (arith, length-set ibase written c)) o in
      ground (arith, rest, get_or-set ibase written i c 0, same c, b.in_range c)

  pub length-invert_from :
      (left c : ℕ) (ibase : List ℕ) → length (invert_from base off left c ibase) ≡ length ibase
  unfolding invert_from
  length-invert_from zero c ibase = refl
  length-invert_from (suc left) c ibase =
      length-invert_from left (c + 1) (set ibase (off + at base (off + c)) c)
      ∙ length-set ibase (off + at base (off + c)) c

  -- After the inner loop the two slices invert one another.
  pub invert_from-IsSlice :
      (ibase : List ℕ)
      → off + n ≤ length ibase
      → IsSlice n base (invert_from base off n 0 ibase) off
  invert_from-IsSlice ibase room =
      let w = invert_from-Written n 0 ibase (omega arith) room (λ e p q. absurd (omega arith)) in
      record {
        base_in = λ c h. ground (arith, same c, b.in_range c);
        ibase_in = λ d h. ground (arith, w (b.pos d), b.pos_range d, b.at-pos d);
        ibase-base = λ c h. ground (arith, same c, b.in_range c, w c);
        base-ibase = λ d h. ground (arith, w (b.pos d), b.pos_range d, b.at-pos d, same (b.pos d));
      }
