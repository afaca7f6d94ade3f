-- ===== src/Snap/Alloc.antt =====
-- `rk_alloc_row` of km/raid_km-snap.c: the search for a free physical row.
use md_kmec.Base.{
  ℕ, zero, suc, ◌+◌, ◌-◌, ◌≤◌, ◌<◌, ◌≡◌, ◌↔◌, refl, sym, ap, subst, ℕ_discrete, Bool, true, false,
  none, some, leb, update, arith, Bool-cases, inl, inr,
}
use md_kmec.Snap.State.{Sn, find_zero, find_next_zero, free_place, alloc_row}

find_zero_bounds :
    (n : ℕ) (used : ℕ → Bool) (from : ℕ)
    → (from ≤ find_zero n used from) × (find_zero n used from ≤ from + n)
unfolding find_zero
find_zero_bounds zero used from = omega arith
find_zero_bounds (suc n) used from = ground (arith, find_zero_bounds n used (from + 1))

-- A search that stops early stops at a clear place.
find_zero_clear :
    (n : ℕ) (used : ℕ → Bool) (from : ℕ)
    → find_zero n used from < from + n
    → used (find_zero n used from) ≡ false
unfolding find_zero
find_zero_clear zero used from h = absurd (omega arith)
find_zero_clear (suc n) used from h = elim (Bool-cases (used from)) [
  | inl e ↦ rw e (find_zero_clear n used (from + 1) (ground (arith, e)))
  | inr e ↦ rw e e
]

-- Every place before the one it stops at is set.
find_zero_passed :
    (n : ℕ) (used : ℕ → Bool) (from i : ℕ) → from ≤ i → i < find_zero n used from → used i ≡ true
unfolding find_zero
find_zero_passed zero used from i lo hi = absurd (omega arith)
find_zero_passed (suc n) used from i lo hi = elim (Bool-cases (used from)) [
  | inl e ↦ elim (ℕ_discrete from i) [
    | yes at ↦ subst (λ j. used j ≡ true) at e
    | no later ↦ find_zero_passed n used (from + 1) i (omega arith) (ground (arith, e))
  ]
  | inr e ↦ absurd (ground (arith, e))
]

pub next_zero_clear :
    (size : ℕ) (used : ℕ → Bool) (from : ℕ)
    → find_next_zero size used from < size
    → used (find_next_zero size used from) ≡ false
next_zero_clear size used from h =
    find_zero_clear (size - from) used from
      (omega (arith, find_zero_bounds (size - from) used from))

free_place_clear : (sn : Sn) → free_place sn < sn.phys_rows → sn.used (free_place sn) ≡ false
unfolding free_place
free_place_clear sn h =
    elim (Bool-cases (leb sn.phys_rows (find_next_zero sn.phys_rows sn.used sn.cursor))) [
      | inl e ↦ rw e (next_zero_clear sn.phys_rows sn.used 0 (ground (arith, e)))
      | inr e ↦ rw e (next_zero_clear sn.phys_rows sn.used sn.cursor (ground (arith, e)))
    ]

free_place_full :
    (sn : Sn) (phys : ℕ) → sn.phys_rows ≤ free_place sn → phys < sn.phys_rows → sn.used phys ≡ true
unfolding free_place
free_place_full sn phys full h =
    find_zero_passed sn.phys_rows sn.used 0 phys (omega arith) (ground arith)

-- A row that is handed out was free and is marked; the other marks stay.
pub alloc_row-some :
    (sn : Sn) (phys : ℕ) (after : Sn)
    → alloc_row sn ≡ (some phys, after)
    → (phys < sn.phys_rows)
      × (sn.used phys ≡ false)
      × (after ≡ record sn { used = update sn.used phys true; cursor = phys + 1 })
unfolding alloc_row
alloc_row-some sn phys after e = elim (Bool-cases (leb sn.phys_rows (free_place sn))) [
  | inl t ↦ let f = rw t at e in absurd (cc f)
  | inr t ↦
      let f = rw t at e in
      let place : free_place sn ≡ phys = cc f in
      rw (← place)
        (ground (arith, t), free_place_clear sn (ground (arith, t)), sym (ap (λ p. p.1) f))
]

-- No row is handed out exactly when every physical row is in use.
pub alloc_row-none :
    (sn : Sn) → ((alloc_row sn).0 ≡ none) ↔ ((phys : ℕ) → phys < sn.phys_rows → sn.used phys ≡ true)
unfolding alloc_row
alloc_row-none sn = elim (Bool-cases (leb sn.phys_rows (free_place sn))) [
  | inl t ↦ rw t (λ e phys h. free_place_full sn phys (ground (arith, t)) h, λ all. refl)
  | inr t ↦
      rw t (
        λ e phys h. cc,
        λ all. absurd (ground (arith, t, free_place_clear sn, all (free_place sn))),
      )
]
