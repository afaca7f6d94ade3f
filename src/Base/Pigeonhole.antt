-- ===== src/Base/Pigeonhole.antt =====
-- An injection of the numbers below `k` into those below `n` shows that `k ≤ n`.
use Prim.Native.Nat.{ℕ, zero, suc, ◌≤◌, ◌<◌}
use mathlib.Core.Path.{◌≡◌}
use native.Mathlib.Omega.{arith}
use md_kmec.Base.Tests.{◌==◌, if◌then◌else◌}

pub pigeonhole :
    (n k : ℕ) (f : ℕ → ℕ)
    → ((i : ℕ) → i < k → f i < n)
    → ((i j : ℕ) → i < k → j < k → f i ≡ f j → i ≡ j)
    → k ≤ n
pigeonhole zero zero f small inj = omega arith
pigeonhole zero (suc k) f small inj = absurd (omega (arith, small k (omega arith)))
pigeonhole (suc n) zero f small inj = omega arith
pigeonhole (suc n) (suc k) f small inj =
    let rest =
      pigeonhole n k (λ i. if f i == n then f k else f i)
        (λ i h. ground (arith, small i, small k, inj i k))
        (λ i j hi hj. ground (arith, small i, small j, inj i k, inj j k, inj i j)) in
    omega (arith, rest)
