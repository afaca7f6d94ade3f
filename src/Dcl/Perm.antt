-- ===== src/Dcl/Perm.antt =====
-- km/raid_km_dcl.h, the seeded permutations: `dcl_splitmix64`, `dcl_gen_base_perm` and
-- `dcl_seed_for_base`.
pub mod Shuffle
use md_kmec.Base.{
  ℕ, zero, suc, ◌+◌, ◌-◌, ◌*◌, ◌%◌, List, [], ◌∷◌, at, set, u32, u64, ◌>>>◌, bit_xor,
}

-- The new state beside the value that is returned.
unfoldable pub splitmix64 : ℕ → ℕ × ℕ
splitmix64 state =
    let s = u64 (state + 0x9e3779b97f4a7c15) in
    let z = u64 (bit_xor s (s >>> 30) * 0xbf58476d1ce4e5b9) in
    let z' = u64 (bit_xor z (z >>> 27) * 0x94d049bb133111eb) in (s, bit_xor z' (z' >>> 31))

-- `for (i = 0; i < n; i++) perm[i] = i;` with `left` rounds left at index `i`.
unfoldable pub identity_from : ℕ → ℕ → List ℕ
identity_from zero i = []
identity_from (suc left) i = i ∷ identity_from left (i + 1)

-- `tmp = perm[i]; perm[i] = perm[j]; perm[j] = tmp;`
unfoldable pub swap : List ℕ → ℕ → ℕ → List ℕ
swap perm i j = set (set perm i (at perm j)) j (at perm i)

-- `for (i = n - 1; i > 0; i--)`, at index `i`.
unfoldable pub shuffle : ℕ → ℕ → List ℕ → List ℕ
shuffle zero st perm = perm
shuffle (suc i) st perm =
    let (st', z) = splitmix64 st in
    let j = u32 (z % u64 (suc i + 1)) in shuffle i st' (swap perm (suc i) j)

-- The `n` entries written from `perm` on. The pool is never empty, so `n - 1` does not wrap.
unfoldable pub gen_base_perm : ℕ → ℕ → List ℕ
unfolding shuffle identity_from swap splitmix64
gen_base_perm n seed = shuffle (n - 1) seed (identity_from n 0)

unfoldable pub seed_for_base : ℕ → ℕ → ℕ
unfolding splitmix64
seed_for_base seed b = (splitmix64 (u64 (seed + 0x100000001b3 * u64 (b + 1)))).1
