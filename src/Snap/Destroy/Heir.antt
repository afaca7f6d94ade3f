-- ===== src/Snap/Destroy/Heir.antt =====
-- What the next older snapshot reads once a snapshot is gone.
use md_kmec.Base.{
  ℕ, ◌+◌, ◌≡◌, refl, ap, ◌∙◌, true, false, Option, none, some, [], ◌∷◌, Xarray, xa_load,
  xa_load-store, arith, Option-cases, Bool-cases, inl, inr, ℕ_discrete,
}
use md_kmec.Snap.State.{Sn, SnapOne, lacks}
use md_kmec.Snap.Apply.{drain, hand_down, release_row, keep_row}
use md_kmec.Snap.Redirect.{lacks-none}

abbrev pub first_of : Option ℕ → Option ℕ → Option ℕ
first_of none q = q
first_of (some p) q = some p

first_of-none : (q : Option ℕ) → q ≡ first_of q none
first_of-none none = refl
first_of-none (some p) = refl

lacks-some :
    (g : SnapOne) (row : ℕ) → lacks (some g) row ≡ false → (p : ℕ) × (xa_load g.exc row ≡ some p)
lacks-some g row h = elim (Option-cases (xa_load g.exc row)) [
  | inl e ↦ let f = rw (e, lacks) at h in absurd (cc f)
  | inr e ↦ e
]

-- A snapshot that reads its own rows first, then those of `es`.
abbrev pub Inherits : SnapOne → Xarray ℕ → SnapOne → Type 0
Inherits o es h =
    (h.slot ≡ o.slot) × ((x : ℕ) → xa_load h.exc x ≡ first_of (xa_load o.exc x) (xa_load es x))

Inherits-kept :
    (o h : SnapOne) (row phys : ℕ) (es : Xarray ℕ)
    → lacks (some o) row ≡ true
    → Inherits (keep_row row phys o) es h
    → Inherits o ((row, phys) ∷ es) h
unfolding keep_row xa_load
Inherits-kept o h row phys es bare (s, reads) = (
  s,
  λ x.
      reads x
      ∙ rw (xa_load-store o.exc row x phys) (elim (ℕ_discrete row x) [
        | yes e ↦ ground (arith, e, lacks-none o row bare, ap (λ n. xa_load o.exc n) e)
        | no e ↦ ground (arith, e)
      ]),
)

Inherits-freed :
    (o h : SnapOne) (row phys : ℕ) (es : Xarray ℕ)
    → lacks (some o) row ≡ false
    → Inherits o es h
    → Inherits o ((row, phys) ∷ es) h
unfolding xa_load
Inherits-freed o h row phys es bare (s, reads) = (
  s,
  λ x. reads x ∙ elim (ℕ_discrete row x) [
    | yes e ↦
        let (p, q) = lacks-some o row bare in ground (arith, e, q, ap (λ n. xa_load o.exc n) e)
    | no e ↦ ground (arith, e)
  ],
)

-- The heir has its own rows, and those of the snapshot that it lacked.
pub drain-Inherits :
    (o : SnapOne) (es : Xarray ℕ) (sn : Sn) (moved freed : ℕ)
    → (h : SnapOne) × ((drain (some o) es sn moved freed).0 ≡ some h) × Inherits o es h
unfolding drain xa_load
drain-Inherits o [] sn moved freed = (o, refl, (refl, λ x. first_of-none (xa_load o.exc x)))
drain-Inherits o ((row, phys) ∷ es) sn moved freed = elim (Bool-cases (lacks (some o) row)) [
  | inl e ↦
      let (h, q, i) =
        drain-Inherits (keep_row row phys o) es (hand_down o row phys sn) (moved + 1) freed in
      (h, rw e q, Inherits-kept o h row phys es e i)
  | inr e ↦
      let (h, q, i) = drain-Inherits o es (release_row phys sn) moved (freed + 1) in
      (h, rw e q, Inherits-freed o h row phys es e i)
]

pub drain-none :
    (es : Xarray ℕ) (sn : Sn) (moved freed : ℕ) → (drain none es sn moved freed).0 ≡ none
unfolding drain
drain-none [] sn moved freed = refl
drain-none ((row, phys) ∷ es) sn moved freed = drain-none es (release_row phys sn) moved (freed + 1)
