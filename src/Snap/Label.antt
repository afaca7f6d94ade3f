-- ===== src/Snap/Label.antt =====
-- A change of a name or of attributes in `rk_snap_apply` of km/raid_km-snap.c.
use md_kmec.Base.{
  ℕ, suc, ◌≡◌, refl, subst, sym, ap, ◌∙◌, Bool, List, [], ◌∷◌, length, ◌==◌, xa_load, IsSortedFrom,
  arith, Bool-cases, inl, inr, if_rule,
}
use md_kmec.Snap.Origin.{origin}
use md_kmec.Snap.Rmap.{own_snap}
use md_kmec.Snap.State.{Sn, SnapOne, owner_of}
use md_kmec.Snap.Apply.{on_slot}
use md_kmec.Snap.View.{or_else, resolve, frozen, frozen-cons, rows_of, view}
use md_kmec.Snap.Owned.{IsHeld, AllHeld, AllElsewhere, AllDistinct, IsOwned}

-- A change of a snapshot that leaves its slot alone.
module _ (s : ℕ) (f : SnapOne → SnapOne) (same_slot : (g : SnapOne) → (f g).slot ≡ g.slot) where
  elsewhere-on_slot :
      (t : ℕ) (chain : List SnapOne) → AllElsewhere t chain → AllElsewhere t (on_slot s f chain)
  unfolding on_slot
  elsewhere-on_slot t [] h = tt
  elsewhere-on_slot t (g ∷ r) (e, h) =
      if_rule (AllElsewhere t) (g.slot == s) (λ _. (λ q. e (sym (same_slot g) ∙ q), h))
        (λ _. (e, elsewhere-on_slot t r h))

  pub distinct-on_slot :
      (chain : List SnapOne) → AllDistinct chain → AllDistinct (on_slot s f chain)
  unfolding on_slot
  distinct-on_slot [] h = tt
  distinct-on_slot (g ∷ r) (e, h) =
      if_rule AllDistinct (g.slot == s)
        (λ _. (subst (λ t. AllElsewhere t r) (sym (same_slot g)) e, h))
        (λ _. (elsewhere-on_slot g.slot r e, distinct-on_slot r h))

  pub length-on_slot : (chain : List SnapOne) → length (on_slot s f chain) ≡ length chain
  unfolding on_slot
  length-on_slot [] = refl
  length-on_slot (g ∷ r) =
      if_rule (λ (l : List SnapOne). length l ≡ suc (length r)) (g.slot == s) (λ _. refl)
        (λ _. ap suc (length-on_slot r))

-- A change of a snapshot that leaves its slot and its rows alone.
module _ (s : ℕ) (f : SnapOne → SnapOne)
    (same : (g : SnapOne)
      → ((f g).slot ≡ g.slot) × ((f g).exc ≡ g.exc) × ((f g).nexc ≡ g.nexc)) where
  resolve-on_slot :
      (chain : List SnapOne) (base : ℕ → ℕ) (row : ℕ)
      → resolve (on_slot s f chain) base row ≡ resolve chain base row
  unfolding resolve on_slot
  resolve-on_slot [] base row = refl
  resolve-on_slot (g ∷ r) base row = elim (Bool-cases (g.slot == s)) [
    | inl e ↦ rw e (ap (λ x. or_else (xa_load x row) (resolve r base row)) (same g).1)
    | inr e ↦ rw e (ap (or_else (xa_load g.exc row)) (resolve-on_slot r base row))
  ]

  frozen-on_slot {ℓ} :
      {A : Type ℓ} (rows : ℕ) (c : ℕ → A) (base : ℕ → ℕ) (chain : List SnapOne)
      → frozen rows c base (on_slot s f chain) ≡ frozen rows c base chain
  unfolding frozen on_slot resolve
  frozen-on_slot rows c base [] = refl
  frozen-on_slot rows c base (g ∷ r) = elim (Bool-cases (g.slot == s)) [
    | inl e ↦ rw e (λ i.
        (
          (same g).0 i,
          rows_of rows c (λ row. or_else (xa_load ((same g).1 i) row) (resolve r base row)),
        )
        ∷ frozen rows c base r)
    | inr e ↦ rw e (
        frozen-cons rows c c g.slot (resolve (g ∷ on_slot s f r) base) (resolve (g ∷ r) base)
          (λ row _. ap (λ p. c (or_else (xa_load g.exc row) p)) (resolve-on_slot r base row))
          (frozen-on_slot rows c base r))
  ]

  still-IsHeld :
      (rows phys_rows : ℕ) (own : ℕ → ℕ × ℕ) (slots : ℕ → Bool) (g : SnapOne)
      → IsHeld rows phys_rows own slots g
      → IsHeld rows phys_rows own slots (f g)
  still-IsHeld rows phys_rows own slots g i = record {
    small = omega (arith, (same g).0, i.small);
    taken = ap slots (same g).0 ∙ i.taken;
    sorted = subst (IsSortedFrom 0) (sym (same g).1) i.sorted;
    copies = λ row phys e.
        let (lt, fits, owned) = i.copies row phys (ap (λ x. xa_load x row) (sym (same g).1) ∙ e) in
        (lt, fits, owned ∙ ap (λ t. (own_snap t, row)) (sym (same g).0));
  }

  held-on_slot :
      (rows phys_rows : ℕ) (own : ℕ → ℕ × ℕ) (slots : ℕ → Bool) (chain : List SnapOne)
      → AllHeld rows phys_rows own slots chain
      → AllHeld rows phys_rows own slots (on_slot s f chain)
  unfolding on_slot
  held-on_slot rows phys_rows own slots [] h = tt
  held-on_slot rows phys_rows own slots (g ∷ r) (i, h) =
      if_rule (AllHeld rows phys_rows own slots) (g.slot == s)
        (λ _. (still-IsHeld rows phys_rows own slots g i, h))
        (λ _. (i, held-on_slot rows phys_rows own slots r h))

  pub on_slot-IsOwned :
      (sn : Sn) → IsOwned sn → IsOwned (record sn { snaps = on_slot s f sn.snaps })
  on_slot-IsOwned sn w = record {
    directory = w.directory;
    home = w.home;
    held = held-on_slot sn.origin_rows sn.phys_rows (owner_of sn) sn.slots sn.snaps w.held;
    distinct = distinct-on_slot s f (λ g. (same g).0) sn.snaps w.distinct;
    idle = w.idle;
    counted = w.counted ∙ sym (length-on_slot s f (λ g. (same g).0) sn.snaps);
  }

  pub view-on_slot {ℓ} :
      {A : Type ℓ} (sn : Sn) (c : ℕ → A)
      → view (record sn { snaps = on_slot s f sn.snaps }) c ≡ view sn c
  unfolding view
  view-on_slot sn c =
      let base = origin sn.odir in
      let kept = frozen-on_slot sn.origin_rows c base sn.snaps in
      λ i. record { live = rows_of sn.origin_rows c base; kept = kept i }
