-- ===== src/Base/Words.antt =====
-- Unsigned machine words: a value is a number, and an operation that can wrap says so.
use Prim.Native.Nat.{ℕ, ◌/◌, ◌%◌, ◌^◌}

abbrev pub u32 : ℕ → ℕ
u32 x = x % 2 ^ 32

abbrev pub u64 : ℕ → ℕ
u64 x = x % 2 ^ 64

infixl 60 ◌>>>◌
abbrev pub ◌>>>◌ : ℕ → ℕ → ℕ
x >>> k = x / 2 ^ k
