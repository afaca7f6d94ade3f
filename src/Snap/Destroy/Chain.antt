-- ===== src/Snap/Destroy/Chain.antt =====
-- The chain of snapshots around the one that goes.
use md_kmec.Base.{
  ℕ, ◌+◌, ◌≡◌, refl, subst, sym, ap, ◌∙◌, Option, none, some, List, [], ◌∷◌, ◌++◌, length, ◌==◌,
  xa_load, arith, Option-cases, Bool-cases, inl, inr, ==_iff,
}
use md_kmec.Snap.State.{SnapOne, newest}
use md_kmec.Snap.Apply.{cut, on_newest}
use md_kmec.Snap.View.{resolve, frozen, frozen-cons, rows_of, without, or_else}
use md_kmec.Snap.Owned.{AllElsewhere, AllDistinct}
use md_kmec.Snap.Redirect.{miss}
use md_kmec.Snap.Destroy.Heir.{Inherits, first_of}

-- The chain is what is older, the snapshot of the slot, and what is newer; nothing older has the
-- slot.
pub record IsCut (s : ℕ) (chain : List SnapOne) (c : List SnapOne × SnapOne × List SnapOne)
    : Type 0 where
  pub whole : chain ≡ c.0 ++ c.1 ∷ c.2
  pub found : c.1.slot ≡ s
  pub first : AllElsewhere s c.0

pub cut-IsCut :
    (s : ℕ) (chain : List SnapOne) (c : List SnapOne × SnapOne × List SnapOne)
    → cut s chain ≡ some c
    → IsCut s chain c
unfolding cut
cut-IsCut s [] c e = absurd (cc e)
cut-IsCut s (h ∷ r) c e = elim (Bool-cases (h.slot == s)) [
  | inl t ↦
      let f = rw t at e in
      let q : ([], h, r) ≡ c = cc f in
      subst (IsCut s (h ∷ r)) q (record { whole = refl; found = (==_iff h.slot s).0 t; first = tt })
  | inr t ↦
      let f = rw t at e in
      elim (Option-cases (cut s r)) [
        | inl n ↦ let k = rw n at f in absurd (cc k)
        | inr (d, n) ↦
            let k = rw n at f in
            let q : (h ∷ d.0, d.1, d.2) ≡ c = cc k in
            let i = cut-IsCut s r d n in
            subst (IsCut s (h ∷ r)) q (record {
              whole = ap (λ l. h ∷ l) i.whole;
              found = i.found;
              first = (λ same. cc ((==_iff h.slot s).1 same, t), i.first);
            })
      ]
]

or_else-first_of : (p q : Option ℕ) (d : ℕ) → or_else (first_of p q) d ≡ or_else p (or_else q d)
or_else-first_of none q d = refl
or_else-first_of (some x) q d = refl

-- The snapshots older than the one that goes resolve to what they did.
resolve_heir :
    (chain : List SnapOne) (o h g : SnapOne) (base : ℕ → ℕ) (row : ℕ)
    → newest chain ≡ some o
    → Inherits o g.exc h
    → resolve (on_newest (λ _. h) chain) base row ≡ resolve chain (resolve (g ∷ []) base) row
unfolding resolve on_newest newest
resolve_heir [] o h g base row e i = absurd (cc e)
resolve_heir (k ∷ []) o h g base row e i =
    let same : k ≡ o = cc e in
    ap (λ p. or_else p (base row)) (i.1 row)
    ∙ or_else-first_of (xa_load o.exc row) (xa_load g.exc row) (base row)
    ∙ ap (λ t. or_else (xa_load t.exc row) (or_else (xa_load g.exc row) (base row))) (sym same)
resolve_heir (k ∷ j ∷ r) o h g base row e i = rw (resolve_heir (j ∷ r) o h g base row e i) refl

module _ {ℓ} {A : Type ℓ} where
  -- So they show what they did.
  pub frozen-heir :
      (rows : ℕ) (c : ℕ → A) (chain : List SnapOne) (o h g : SnapOne) (base : ℕ → ℕ)
      → newest chain ≡ some o
      → Inherits o g.exc h
      → frozen rows c base (on_newest (λ _. h) chain) ≡ frozen rows c (resolve (g ∷ []) base) chain
  unfolding frozen on_newest newest resolve
  frozen-heir rows c [] o h g base e i = absurd (cc e)
  frozen-heir rows c (k ∷ []) o h g base e i =
      let same : k ≡ o = cc e in
      let slots : h.slot ≡ k.slot = i.0 ∙ ap (λ t. t.slot) (sym same) in
      rw slots (
        frozen-cons rows c c k.slot (resolve (h ∷ []) base)
          (resolve (k ∷ []) (resolve (g ∷ []) base))
          (λ row _. ap c (resolve_heir (k ∷ []) o h g base row e i)) refl)
  frozen-heir rows c (k ∷ j ∷ r) o h g base e i =
      frozen-cons rows c c k.slot (resolve (k ∷ on_newest (λ _. h) (j ∷ r)) base)
        (resolve (k ∷ j ∷ r) (resolve (g ∷ []) base))
        (λ row _. ap c (resolve_heir (k ∷ j ∷ r) o h g base row e i))
        (frozen-heir rows c (j ∷ r) o h g base e i)

  -- The abstract list without the slot, where nothing before has it.
  pub without-frozen :
      (rows : ℕ) (c : ℕ → A) (base : ℕ → ℕ) (s : ℕ) (older : List SnapOne) (f : ℕ → Option A)
      (rest : List (ℕ × (ℕ → Option A)))
      → AllElsewhere s older
      → without s (frozen rows c base older ++ (s, f) ∷ rest) ≡ frozen rows c base older ++ rest
  unfolding without frozen
  without-frozen rows c base s [] f rest h = rw ((==_iff s s).1 refl) refl
  without-frozen rows c base s (g ∷ r) f rest (h, k) = rw (miss g.slot s h) (
      ap (λ l. (g.slot, rows_of rows c (resolve (g ∷ r) base)) ∷ l)
        (without-frozen rows c base s r f rest k))

-- The chain without the snapshot, and with the heir in place of the older one.
module _ (f : SnapOne → SnapOne) where
  elsewhere_left :
      (s : ℕ) (k : List SnapOne) (g : SnapOne) (l : List SnapOne)
      → ((o : SnapOne) → newest k ≡ some o → (f o).slot ≡ o.slot)
      → AllElsewhere s (k ++ g ∷ l)
      → AllElsewhere s (on_newest f k ++ l)
  unfolding on_newest newest
  elsewhere_left s [] g l still (_, h) = h
  elsewhere_left s (a ∷ []) g l still (ha, (_, h)) = (λ e. ha (sym (still a refl) ∙ e), h)
  elsewhere_left s (a ∷ b ∷ k) g l still (ha, h) = (ha, elsewhere_left s (b ∷ k) g l still h)

  pub distinct_left :
      (k : List SnapOne) (g : SnapOne) (l : List SnapOne)
      → ((o : SnapOne) → newest k ≡ some o → (f o).slot ≡ o.slot)
      → AllDistinct (k ++ g ∷ l)
      → AllDistinct (on_newest f k ++ l)
  unfolding on_newest newest
  distinct_left [] g l still (_, h) = h
  distinct_left (a ∷ []) g l still ((_, ha), (_, h)) =
      (subst (λ t. AllElsewhere t l) (sym (still a refl)) ha, h)
  distinct_left (a ∷ b ∷ k) g l still (ha, h) =
      (elsewhere_left a.slot (b ∷ k) g l still ha, distinct_left (b ∷ k) g l still h)

  pub length_left :
      (k : List SnapOne) (g : SnapOne) (l : List SnapOne)
      → length (on_newest f k ++ l) + 1 ≡ length (k ++ g ∷ l)
  unfolding on_newest
  length_left [] g l = omega arith
  length_left (a ∷ []) g l = omega arith
  length_left (a ∷ b ∷ k) g l = omega (arith, length_left (b ∷ k) g l)

-- In a chain of distinct slots the others are elsewhere.
pub others_elsewhere :
    (k : List SnapOne) (g : SnapOne) (l : List SnapOne)
    → AllDistinct (k ++ g ∷ l)
    → AllElsewhere g.slot k
    → AllElsewhere g.slot (k ++ l)
others_elsewhere [] g l (h, _) e = h
others_elsewhere (a ∷ k) g l (_, h) (ha, e) = (ha, others_elsewhere k g l h e)
