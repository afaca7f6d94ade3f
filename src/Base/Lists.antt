-- ===== src/Base/Lists.antt =====
-- C arrays as lists with native indices.
use Prim.Native.Nat.{ℕ, zero, suc, ◌+◌, ◌<◌}
use mathlib.Core.Path.{◌≡◌, refl, ap, ◌∙◌}
use mathlib.Core.Logic.{◌≢◌}
use mathlib.Core.List.{List, [], ◌∷◌, ◌++◌}
use mathlib.Core.Option.{Option, none, some}
use native.Mathlib.Omega.{arith}
use md_kmec.Base.Tests.{◌==◌, if◌then◌else◌}

module _ {ℓ} {A : Type ℓ} where
  abbrev pub length : List A → ℕ
  length [] = 0
  length (_ ∷ xs) = suc (length xs)

  abbrev pub get_or : List A → ℕ → A → A
  get_or [] i d = d
  get_or (x ∷ xs) zero d = x
  get_or (x ∷ xs) (suc i) d = get_or xs i d

  -- A write out of range changes nothing.
  abbrev pub set : List A → ℕ → A → List A
  set [] i v = []
  set (x ∷ xs) zero v = v ∷ xs
  set (x ∷ xs) (suc i) v = x ∷ set xs i v

  pub get_or-set_ne :
      (xs : List A) (i j : ℕ) (v d : A) → i ≢ j → get_or (set xs i v) j d ≡ get_or xs j d
  get_or-set_ne [] i j v d h = refl
  get_or-set_ne (x ∷ xs) zero zero v d h = absurd (h refl)
  get_or-set_ne (x ∷ xs) (suc i) (suc j) v d h = get_or-set_ne xs i j v d (λ e. h (ap suc e))
  get_or-set_ne (x ∷ xs) zero (suc j) v d h = refl
  get_or-set_ne (x ∷ xs) (suc i) zero v d h = refl

  abbrev pub get_elem? : List A → ℕ → Option A
  get_elem? [] i = none
  get_elem? (x ∷ xs) zero = some x
  get_elem? (x ∷ xs) (suc i) = get_elem? xs i

  pub get_elem?-lt : (xs : List A) (i : ℕ) {x : A} → get_elem? xs i ≡ some x → i < length xs
  get_elem?-lt [] i h = cc
  get_elem?-lt (x ∷ xs) zero h = omega arith
  get_elem?-lt (x ∷ xs) (suc i) h = omega (arith, get_elem?-lt xs i h)

  abbrev pub replicate : ℕ → A → List A
  replicate zero a = []
  replicate (suc n) a = a ∷ replicate n a

  pub length-set : (xs : List A) (i : ℕ) (v : A) → length (set xs i v) ≡ length xs
  length-set [] i v = refl
  length-set (x ∷ xs) zero v = refl
  length-set (x ∷ xs) (suc i) v = ap suc (length-set xs i v)

  pub get_or-set :
      (xs : List A) (i j : ℕ) (v d : A)
      → i < length xs
      → get_or (set xs i v) j d ≡ (if i == j then v else get_or xs j d)
  get_or-set [] i j v d h = absurd (omega arith)
  get_or-set (x ∷ xs) zero zero v d h = refl
  get_or-set (x ∷ xs) (suc i) (suc j) v d h = ground (arith, get_or-set xs i j v d)
  get_or-set (x ∷ xs) i j v d h = ground arith

  pub get_or-replicate : (n : ℕ) (a : A) (i : ℕ) (d : A) → i < n → get_or (replicate n a) i d ≡ a
  get_or-replicate zero a i d h = absurd (omega arith)
  get_or-replicate (suc n) a zero d h = refl
  get_or-replicate (suc n) a (suc i) d h = get_or-replicate n a i d (omega arith)

  pub length-replicate : (n : ℕ) (a : A) → length (replicate n a) ≡ n
  length-replicate zero a = refl
  length-replicate (suc n) a = ap suc (length-replicate n a)

module _ {ℓ} {A : Type ℓ} where
  -- The `n` elements from index `off` on.
  unfoldable pub slice : ℕ → ℕ → List A → List A
  slice off zero xs = []
  slice off (suc n) [] = []
  slice zero (suc n) (x ∷ xs) = x ∷ slice zero n xs
  slice (suc off) (suc n) (x ∷ xs) = slice off (suc n) xs

  pub get_or-slice :
      (off n : ℕ) (xs : List A) (i : ℕ) (d : A)
      → i < n
      → get_or (slice off n xs) i d ≡ get_or xs (off + i) d
  unfolding slice
  get_or-slice off zero xs i d h = absurd (omega arith)
  get_or-slice off (suc n) [] i d h = refl
  get_or-slice zero (suc n) (x ∷ xs) zero d h = refl
  get_or-slice zero (suc n) (x ∷ xs) (suc i) d h =
      let e : suc (0 + i) ≡ 0 + suc i = omega arith in
      get_or-slice zero n xs i d (omega arith) ∙ ap (λ j. get_or (x ∷ xs) j d) e
  get_or-slice (suc off) (suc n) (x ∷ xs) i d h =
      let e : suc (off + i) ≡ suc off + i = omega arith in
      get_or-slice off (suc n) xs i d h ∙ ap (λ j. get_or (x ∷ xs) j d) e

  -- The first `n` elements, with `d` in place of those that are not there.
  unfoldable pub fit : A → ℕ → List A → List A
  fit d zero xs = []
  fit d (suc n) [] = d ∷ fit d n []
  fit d (suc n) (x ∷ xs) = x ∷ fit d n xs

  pub length-fit : (d : A) (n : ℕ) (xs : List A) → length (fit d n xs) ≡ n
  unfolding fit
  length-fit d zero xs = refl
  length-fit d (suc n) [] = ap suc (length-fit d n [])
  length-fit d (suc n) (x ∷ xs) = ap suc (length-fit d n xs)

  pub get_or-fit :
      (d : A) (n : ℕ) (xs : List A) (i : ℕ) → i < n → get_or (fit d n xs) i d ≡ get_or xs i d
  unfolding fit
  get_or-fit d zero xs i h = absurd (omega arith)
  get_or-fit d (suc n) [] zero h = refl
  get_or-fit d (suc n) [] (suc i) h = get_or-fit d n [] i (omega arith)
  get_or-fit d (suc n) (x ∷ xs) zero h = refl
  get_or-fit d (suc n) (x ∷ xs) (suc i) h = get_or-fit d n xs i (omega arith)

  pub get_or-left :
      (xs ys : List A) (i : ℕ) (d : A) → i < length xs → get_or (xs ++ ys) i d ≡ get_or xs i d
  get_or-left [] ys i d h = absurd (omega arith)
  get_or-left (x ∷ xs) ys zero d h = refl
  get_or-left (x ∷ xs) ys (suc i) d h = get_or-left xs ys i d (omega arith)

  pub get_or-right :
      (xs ys : List A) (i : ℕ) (d : A) → get_or (xs ++ ys) (length xs + i) d ≡ get_or ys i d
  get_or-right [] ys i d = ap (λ j. get_or ys j d) (omega arith)
  get_or-right (x ∷ xs) ys i d =
      let e : length (x ∷ xs) + i ≡ suc (length xs + i) = omega arith in
      ap (λ j. get_or (x ∷ xs ++ ys) j d) e ∙ get_or-right xs ys i d

-- An element of an array of numbers. C leaves a read out of range undefined; the model reads 0.
abbrev pub at : List ℕ → ℕ → ℕ
at xs i = get_or xs i 0
