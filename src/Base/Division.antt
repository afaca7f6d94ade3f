-- ===== src/Base/Division.antt =====
-- Division by a variable: the parts of a number, and a number below twice the divisor.
use Prim.Native.Nat.{ℕ, ◌+◌, ◌-◌, ◌*◌, ◌/◌, ◌%◌, ◌≤◌, ◌<◌}
use mathlib.Core.Path.{◌≡◌, ap, ◌∙◌}
use native.Mathlib.Nat.{div-add-mod', div-eq_of_lt-le, mod-eq_of_lt, mod-eq-sub-mod, mod-lt}
use native.Mathlib.Omega.{arith}

-- The parts of a number written in base `n`.
pub div_of_parts : (q r n : ℕ) → r < n → (q * n + r) / n ≡ q
div_of_parts q r n h = div-eq_of_lt-le {k = q} n {m = q * n + r} (omega arith) (omega arith)

pub mod_of_parts : (q r n : ℕ) → r < n → (q * n + r) % n ≡ r
mod_of_parts q r n h = omega (
  arith,
  div_of_parts q r n h,
  div-add-mod' (q * n + r) n,
  ap (λ (x : ℕ). x * n) (div_of_parts q r n h),
)

pub mod_small : (n x : ℕ) → x < n → x % n ≡ x
mod_small n x h = mod-eq_of_lt {n = x} {m = n} h

pub mod_wrap : (n x : ℕ) → n ≤ x → x < n + n → x % n ≡ x - n
mod_wrap n x lo hi =
    mod-eq-sub-mod {n = x} {m = n} lo ∙ mod-eq_of_lt {n = x - n} {m = n} (omega arith)

-- The multiple of `n` at or below `s`.
pub div_bounds : (s n : ℕ) → 0 < n → (s / n * n ≤ s) × (s < s / n * n + n)
div_bounds s n h = omega (arith, div-add-mod' s n, mod-lt s {m = n} h)

pub next_mul : (a n : ℕ) → (a + 1) * n ≡ a * n + n
next_mul a n = grind arith

pub add_mul : (a b n : ℕ) → (a + b) * n ≡ a * n + b * n
add_mul a b n = grind arith

pub mul_mono : (a b n : ℕ) → a ≤ b → a * n ≤ b * n
mul_mono a b n h = grind arith
