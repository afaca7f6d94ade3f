-- ===== src/Dcl/Perm/Shuffle.antt =====
-- The shuffle permutes the columns: every base permutation is a bijection of [0, n).
use native.Mathlib.Nat.{mod-lt}
use md_kmec.Base.{
  ℕ, zero, suc, ◌+◌, ◌-◌, ◌%◌, ◌^◌, ◌≤◌, ◌<◌, ◌≡◌, refl, ap, List, at, set, length, length-set,
  get_or-set, u32, u64, arith, ◌∙◌, ◌==◌, if◌then◌else◌,
}
use md_kmec.Dcl.Perm.{identity_from, swap, shuffle, splitmix64, gen_base_perm}

-- `perm` lists the numbers below `n`, and `pos` is the position of each.
pub record IsBijection (n : ℕ) (perm : List ℕ) : Type 0 where
  pub size : length perm ≡ n
  pub pos : ℕ → ℕ
  pub in_range : (c : ℕ) → c < n → at perm c < n
  pub pos_range : (d : ℕ) → d < n → pos d < n
  pub pos-at : (c : ℕ) → c < n → pos (at perm c) ≡ c
  pub at-pos : (d : ℕ) → d < n → at perm (pos d) ≡ d

length-identity : (left i : ℕ) → length (identity_from left i) ≡ left
unfolding identity_from
length-identity zero i = refl
length-identity (suc left) i = ap suc (length-identity left (i + 1))

at-identity : (left i c : ℕ) → c < left → at (identity_from left i) c ≡ i + c
unfolding identity_from
at-identity zero i c h = absurd (omega arith)
at-identity (suc left) i zero h = omega arith
at-identity (suc left) i (suc c) h = omega (arith, at-identity left (i + 1) c)

identity-IsBijection : (n : ℕ) → IsBijection n (identity_from n 0)
identity-IsBijection n = record {
  size = length-identity n 0;
  pos = λ d. d;
  in_range = λ c h. omega (arith, at-identity n 0 c h);
  pos_range = λ d h. h;
  pos-at = λ c h. omega (arith, at-identity n 0 c h);
  at-pos = λ d h. omega (arith, at-identity n 0 d h);
}

at-swap :
    (perm : List ℕ) (i j c : ℕ)
    → i < length perm
    → j < length perm
    → at (swap perm i j) c ≡ (if j == c then at perm i else if i == c then at perm j else at perm c)
unfolding swap
at-swap perm i j c hi hj = ground (
  arith,
  length-set perm i (at perm j),
  get_or-set (set perm i (at perm j)) j c (at perm i) 0,
  get_or-set perm i c (at perm j) 0,
)

length-swap : (perm : List ℕ) (i j : ℕ) → length (swap perm i j) ≡ length perm
unfolding swap
length-swap perm i j =
    length-set (set perm i (at perm j)) j (at perm i) ∙ length-set perm i (at perm j)

swap-IsBijection :
    {n : ℕ} {perm : List ℕ} (i j : ℕ)
    → i < n
    → j < n
    → IsBijection n perm
    → IsBijection n (swap perm i j)
swap-IsBijection {n} {perm} i j hi hj b =
    let li : i < length perm = omega (arith, b.size) in
    let lj : j < length perm = omega (arith, b.size) in
    record {
      size = length-swap perm i j ∙ b.size;
      pos = λ d. if d == at perm i then j else if d == at perm j then i else b.pos d;
      in_range =
          λ c h. ground (arith, at-swap perm i j c li lj, b.in_range i, b.in_range j, b.in_range c);
      pos_range = λ d h. ground (arith, b.pos_range d);
      pos-at = λ c h. ground (arith, at-swap perm i j c li lj, b.pos-at i, b.pos-at j, b.pos-at c);
      at-pos = λ d h. ground (
        arith,
        at-swap perm i j i li lj,
        at-swap perm i j j li lj,
        at-swap perm i j (b.pos d) li lj,
        b.at-pos d,
        b.pos-at i,
        b.pos-at j,
      );
    }

-- The index that a round draws is at most the round's own.
pick-lt : (z i : ℕ) {n : ℕ} → n ≤ 2 ^ 32 → i < n → u32 (z % u64 (i + 1)) < n
pick-lt z i small h =
    let same : u64 (i + 1) ≡ i + 1 = omega arith in
    rw same (omega (arith, mod-lt z {m = i + 1} (omega arith)))

shuffle-IsBijection :
    {n : ℕ} (i st : ℕ) (perm : List ℕ)
    → i < n
    → n ≤ 2 ^ 32
    → IsBijection n perm
    → IsBijection n (shuffle i st perm)
unfolding shuffle
shuffle-IsBijection zero st perm h small b = b
shuffle-IsBijection {n} (suc i) st perm h small b =
    let (st', z) = splitmix64 st in
    let j = u32 (z % u64 (suc i + 1)) in
    let hj : j < n = pick-lt z (suc i) (omega arith) h in
    shuffle-IsBijection i st' (swap perm (suc i) j) (omega arith) small
      (swap-IsBijection (suc i) j h hj b)

-- `dcl_gen_base_perm` writes a permutation of the numbers below `n`, whatever the seed.
pub gen_base_perm-IsBijection :
    (n seed : ℕ) → 0 < n → n ≤ 2 ^ 32 → IsBijection n (gen_base_perm n seed)
unfolding gen_base_perm
gen_base_perm-IsBijection n seed h small =
    shuffle-IsBijection (n - 1) seed (identity_from n 0) (omega arith) small
      (identity-IsBijection n)
