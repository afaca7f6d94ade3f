-- ===== src/Snap/Journal/Ahead.antt =====
-- The state in memory is ahead of the one on the members: the rows that copy-on-writes have taken are
-- marked as used before their records are written, and the allocator's cursor is nowhere on disk.
use md_kmec.Base.{
  ℕ, ◌+◌, ◌≡◌, ◌⊎◌, refl, sym, ap, ◌∙◌, subst, Bool, true, false, Option, none, some, List, [], ◌∷◌,
  ◌==◌, Xarray, update, arith, inl, inr, Bool-cases,
}
use md_kmec.Snap.State.{Sn, SnapOne, Op, redirect, create, destroy, rename, newest, lacks, rmap_set}
use md_kmec.Snap.Apply.{
  apply, apply_redirect, apply_create, apply_destroy, at_newest, at_cut, cut, Cut, drain, unlink,
  hand_down, release_row, keep_row,
}
use md_kmec.Snap.Journal.Batch.{apply_all}

-- The same state, but for the marks of the rows in use and the cursor.
abbrev pub with_marks : (ℕ → Bool) → ℕ → Sn → Sn
with_marks used cursor sn = record sn { used = used; cursor = cursor }

module _ (taken : ℕ → Bool) where
  -- More rows are marked, all of them taken ones.
  abbrev pub MarksMore : (ℕ → Bool) → (ℕ → Bool) → Type 0
  MarksMore more used = (p : ℕ) → (more p ≡ used p) ⊎ ((taken p ≡ true) × (more p ≡ true))

  pub record IsAhead (live disk : Sn) : Type 0 where
    pub same : live ≡ with_marks live.used live.cursor disk
    pub marks : MarksMore live.used disk.used

  -- A change of one mark in both.
  update-MarksMore :
      (more used : ℕ → Bool) (phys : ℕ) (b : Bool)
      → MarksMore more used
      → MarksMore (update more phys b) (update used phys b)
  update-MarksMore more used phys b h p = elim (h p) [
    | inl e ↦ inl (ground (arith, e))
    | inr (t, e) ↦ elim (Bool-cases (phys == p)) [
      | inl q ↦ inl (rw q refl)
      | inr q ↦ inr (t, rw q e)
    ]
  ]

  -- The outcome of an operation on the two states.
  abbrev Ends : ℕ → Sn → Sn → Type 0
  Ends c live disk = (more : ℕ → Bool) × (live ≡ with_marks more c disk) × MarksMore more disk.used

  abbrev Drained : Type 0
  Drained = Option SnapOne × Sn × ℕ × ℕ

  abbrev DrainEnds : ℕ → Drained → Drained → Type 0
  DrainEnds c live disk =
      (more : ℕ → Bool) × (live ≡ (disk.0, with_marks more c disk.1, disk.2, disk.3))
      × MarksMore more disk.1.used

  drain-Ends :
      (older : Option SnapOne) (es : Xarray ℕ) (more : ℕ → Bool) (c : ℕ) (sn : Sn) (m f : ℕ)
      → MarksMore more sn.used
      → DrainEnds c (drain older es (with_marks more c sn) m f) (drain older es sn m f)
  unfolding drain release_row hand_down rmap_set
  drain-Ends older [] more c sn m f h = (more, refl, h)
  drain-Ends none ((row, phys) ∷ es) more c sn m f h =
      drain-Ends none es (update more phys false) c (release_row phys sn) m (f + 1)
        (update-MarksMore more sn.used phys false h)
  drain-Ends (some o) ((row, phys) ∷ es) more c sn m f h = elim (Bool-cases (lacks (some o) row)) [
    | inl e ↦
        rw e
          (drain-Ends (some (keep_row row phys o)) es more c (hand_down o row phys sn) (m + 1) f h)
    | inr e ↦ rw e (
        drain-Ends (some o) es (update more phys false) c (release_row phys sn) m (f + 1)
          (update-MarksMore more sn.used phys false h))
  ]

  cut-Ends :
      (o : Option Cut) (more : ℕ → Bool) (c : ℕ) (sn : Sn)
      → MarksMore more sn.used
      → Ends c (at_cut (with_marks more c sn) o) (at_cut sn o)
  unfolding apply_destroy unlink
  cut-Ends none more c sn h = (more, refl, h)
  cut-Ends (some (older, g, newer)) more c sn h =
      let (after, e, a) = drain-Ends (newest older) g.exc more c sn 0 0 h in
      (after, ap (λ r. (unlink older g newer r).0) e, a)

  newest-Ends :
      (o : Option SnapOne) (row old_phys new_phys : ℕ) (more : ℕ → Bool) (c : ℕ) (sn : Sn)
      → MarksMore more sn.used
      → Ends c
          (at_newest row old_phys new_phys (with_marks more c sn) o)
          (at_newest row old_phys new_phys sn o)
  unfolding apply_redirect rmap_set
  newest-Ends none row old_phys new_phys more c sn h = (more, refl, h)
  newest-Ends (some g) row old_phys new_phys more c sn h =
      (update more new_phys true, refl, update-MarksMore more sn.used new_phys true h)

  apply-Ends :
      (op : Op) (more : ℕ → Bool) (c : ℕ) (sn : Sn)
      → MarksMore more sn.used
      → Ends c (apply (with_marks more c sn) op) (apply sn op)
  unfolding apply apply_create
  apply-Ends (redirect row old_phys new_phys) more c sn h =
      newest-Ends (newest sn.snaps) row old_phys new_phys more c sn h
  apply-Ends (create g) more c sn h = (more, refl, h)
  apply-Ends (destroy s) more c sn h = cut-Ends (cut s sn.snaps) more c sn h
  apply-Ends (rename s text) more c sn h = (more, refl, h)
  apply-Ends (Op.set s text) more c sn h = (more, refl, h)

  apply_all-Ends :
      (ops : List Op) (more : ℕ → Bool) (c : ℕ) (sn : Sn)
      → MarksMore more sn.used
      → Ends c (apply_all ops (with_marks more c sn)) (apply_all ops sn)
  unfolding apply_all
  apply_all-Ends [] more c sn h = (more, refl, h)
  apply_all-Ends (op ∷ r) more c sn h =
      let (after, e, a) = apply-Ends op more c sn h in
      let (last, e', a') = apply_all-Ends r after c (apply sn op) a in
      (last, ap (apply_all r) e ∙ e', a')

  -- Operations keep the state in memory ahead.
  pub apply_all-IsAhead :
      (ops : List Op) (live disk : Sn)
      → IsAhead live disk
      → IsAhead (apply_all ops live) (apply_all ops disk)
  apply_all-IsAhead ops live disk w =
      let (after, e, a) = apply_all-Ends ops live.used live.cursor disk w.marks in
      subst (λ t. IsAhead t (apply_all ops disk)) (sym (ap (apply_all ops) w.same ∙ e))
        (record { same = refl; marks = a })
