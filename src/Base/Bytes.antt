-- ===== src/Base/Bytes.antt =====
-- Bytes of a buffer: little-endian numbers, the front and the rest of a list, and C strings.
use Prim.Native.Nat.{ℕ, zero, suc, ◌+◌, ◌*◌, ◌/◌, ◌%◌, ◌^◌, ◌<◌, ◌≤◌}
use mathlib.Core.Path.{◌≡◌, refl, sym, ap, ◌∙◌}
use mathlib.Core.Logic.{◌≢◌}
use mathlib.Core.List.{List, [], ◌∷◌, ◌++◌}
use native.Mathlib.Omega.{arith}
use md_kmec.Base.Tests.{◌==◌, if◌then◌else◌}
use md_kmec.Base.Lists.{length, fit}

-- `n` bytes of a number, the lowest first.
unfoldable pub le_bytes : ℕ → ℕ → List ℕ
le_bytes zero v = []
le_bytes (suc n) v = v % 256 ∷ le_bytes n (v / 256)

unfoldable pub le_value : List ℕ → ℕ
le_value [] = 0
le_value (b ∷ r) = b + 256 * le_value r

pub le_value-le_bytes : (n v : ℕ) → v < 256 ^ n → le_value (le_bytes n v) ≡ v
unfolding le_value le_bytes
le_value-le_bytes zero v h = omega arith
le_value-le_bytes (suc n) v h = omega (arith, le_value-le_bytes n (v / 256) (omega arith))

pub length-le_bytes : (n v : ℕ) → length (le_bytes n v) ≡ n
unfolding le_bytes
length-le_bytes zero v = refl
length-le_bytes (suc n) v = ap suc (length-le_bytes n (v / 256))

module _ {ℓ} {A : Type ℓ} where
  unfoldable pub take : ℕ → List A → List A
  take zero xs = []
  take (suc n) [] = []
  take (suc n) (x ∷ xs) = x ∷ take n xs

  unfoldable pub drop : ℕ → List A → List A
  drop zero xs = xs
  drop (suc n) [] = []
  drop (suc n) (x ∷ xs) = drop n xs

  pub take-append : (n : ℕ) (xs ys : List A) → length xs ≡ n → take n (xs ++ ys) ≡ xs
  unfolding take
  take-append zero [] ys h = refl
  take-append zero (x ∷ xs) ys h = absurd (omega (arith, h))
  take-append (suc n) [] ys h = absurd (omega (arith, h))
  take-append (suc n) (x ∷ xs) ys h = ap (λ l. x ∷ l) (take-append n xs ys (omega (arith, h)))

  pub drop-append : (n : ℕ) (xs ys : List A) → length xs ≡ n → drop n (xs ++ ys) ≡ ys
  unfolding drop
  drop-append zero [] ys h = refl
  drop-append zero (x ∷ xs) ys h = absurd (omega (arith, h))
  drop-append (suc n) [] ys h = absurd (omega (arith, h))
  drop-append (suc n) (x ∷ xs) ys h = drop-append n xs ys (omega (arith, h))

  drop_nil : (k : ℕ) → drop k [] ≡ []
  unfolding drop
  drop_nil zero = refl
  drop_nil (suc k) = refl

  pub drop-add : (a b : ℕ) (xs : List A) → drop (a + b) xs ≡ drop b (drop a xs)
  unfolding drop
  drop-add zero b xs = ap (λ k. drop k xs) (omega arith)
  drop-add (suc a) b [] = drop_nil (suc a + b) ∙ sym (drop_nil b)
  drop-add (suc a) b (x ∷ xs) =
      ap (λ k. drop k (x ∷ xs)) {y = suc (a + b)} (omega arith) ∙ drop-add a b xs

  pub length-append : (xs ys : List A) → length (xs ++ ys) ≡ length xs + length ys
  length-append [] ys = omega arith
  length-append (x ∷ xs) ys = omega (arith, length-append xs ys)

-- A C string in a buffer: the bytes before the first NUL.
unfoldable pub c_string : List ℕ → List ℕ
c_string [] = []
c_string (b ∷ r) = let rest = b ∷ c_string r in if b == 0 then [] else rest

-- No byte is NUL.
abbrev pub AllNonzero : List ℕ → Type 0
AllNonzero [] = Unit
AllNonzero (b ∷ r) = (b ≢ 0) × AllNonzero r

pub c_string-text : (t : List ℕ) → AllNonzero t → c_string t ≡ t
unfolding c_string
c_string-text [] h = refl
c_string-text (b ∷ r) (hb, h) = ground (arith, hb, c_string-text r h)

pub c_string-fit : (n : ℕ) (t : List ℕ) → AllNonzero t → length t ≤ n → c_string (fit 0 n t) ≡ t
unfolding c_string fit
c_string-fit zero [] h l = refl
c_string-fit zero (b ∷ r) h l = absurd (omega (arith, l))
c_string-fit (suc n) [] h l = refl
c_string-fit (suc n) (b ∷ r) (hb, h) l = ground (arith, hb, c_string-fit n r h (omega (arith, l)))

-- The front of a filled buffer, and what follows it.
pub take-fit_append {ℓ} :
    {A : Type ℓ} (d : A) (n : ℕ) (t rest : List A) → take n (fit d (suc n) t ++ rest) ≡ fit d n t
unfolding take fit
take-fit_append d zero t rest = refl
take-fit_append d (suc n) [] rest = ap (λ l. d ∷ l) (take-fit_append d n [] rest)
take-fit_append d (suc n) (x ∷ t) rest = ap (λ l. x ∷ l) (take-fit_append d n t rest)
