-- ===== src/Snap/Create.antt =====
-- A new snapshot, in `rk_snap_apply` of
-- km/raid_km-snap.c.
use md_kmec.Base.{
  ℕ, ◌+◌, ◌<◌, ◌≡◌, refl, sym, ap, ◌∙◌, Bool, true, false, List, [], ◌∷◌, ◌++◌, length, xa_load,
  IsSortedFrom, update, arith, ==_iff,
}
use mathlib.Core.Path.{fun_ext}
use md_kmec.Snap.Origin.{origin}
use md_kmec.Snap.State.{Sn, SnapOne, owner_of, snap_slots}
use md_kmec.Snap.Apply.{apply_create}
use md_kmec.Snap.View.{or_else, resolve, frozen, frozen-append, rows_of, view, freeze}
use md_kmec.Snap.Owned.{
  IsHeld, AllHeld, AllElsewhere, AllDistinct, IsOwned, AllHeld-append, AllElsewhere-append,
}

-- A snapshot as `rk_snap_create` and the journal's parser make it: in a free slot, with no rows of
-- its own.
pub record IsNew (sn : Sn) (g : SnapOne) : Type 0 where
  pub small : g.slot < snap_slots
  pub vacant : sn.slots g.slot ≡ false
  pub empty : g.exc ≡ []
  pub none_yet : g.nexc ≡ 0

resolve_new : (g : SnapOne) (base : ℕ → ℕ) → g.exc ≡ [] → resolve (g ∷ []) base ≡ base
unfolding resolve xa_load
resolve_new g base e = fun_ext λ row. ap (λ x. or_else (xa_load x row) (base row)) e

distinct_snoc :
    (chain : List SnapOne) (g : SnapOne)
    → AllElsewhere g.slot chain
    → AllDistinct chain
    → AllDistinct (chain ++ g ∷ [])
distinct_snoc [] g e d = (tt, tt)
distinct_snoc (a ∷ chain) g (ea, e) (da, d) = (
  AllElsewhere-append a.slot chain (g ∷ []) da ((λ q. ea (sym q)), tt),
  distinct_snoc chain g e d,
)

module _ (sn : Sn) (g : SnapOne) (w : IsOwned sn) (n : IsNew sn g) where
  abbrev slots_after : ℕ → Bool
  slots_after = update sn.slots g.slot true

  held_after :
      (k : List SnapOne)
      → AllHeld sn.origin_rows sn.phys_rows (owner_of sn) sn.slots k
      → AllHeld sn.origin_rows sn.phys_rows (owner_of sn) slots_after k
  held_after [] h = tt
  held_after (a ∷ k) (i, h) = (
    record {
      small = i.small;
      taken = ground (arith, i.taken);
      sorted = i.sorted;
      copies = i.copies;
    },
    held_after k h,
  )

  elsewhere :
      (k : List SnapOne)
      → AllHeld sn.origin_rows sn.phys_rows (owner_of sn) sn.slots k
      → AllElsewhere g.slot k
  elsewhere [] h = tt
  elsewhere (a ∷ k) (i, h) = (λ e. cc (sym i.taken ∙ ap sn.slots e ∙ n.vacant), elsewhere k h)

  new-IsHeld : IsHeld sn.origin_rows sn.phys_rows (owner_of sn) slots_after g
  unfolding xa_load IsSortedFrom
  new-IsHeld = record {
    small = n.small;
    taken = rw ((==_iff g.slot g.slot).1 refl) refl;
    sorted = rw n.empty tt;
    copies = λ row phys e. let f = rw n.empty at e in absurd (cc f);
  }

  -- The new snapshot shows what the origin shows, and nothing else changes.
  pub view-create {ℓ} :
      {A : Type ℓ} (c : ℕ → A) → view (apply_create g sn) c ≡ freeze g.slot (view sn c)
  unfolding view freeze apply_create frozen
  view-create c =
      let base = origin sn.odir in
      let kept =
        frozen-append sn.origin_rows c base sn.snaps (g ∷ [])
        ∙ ap
            (λ f. frozen sn.origin_rows c f sn.snaps ++ ((g.slot, rows_of sn.origin_rows c f) ∷ []))
            (resolve_new g base n.empty) in
      λ i. record { live = rows_of sn.origin_rows c base; kept = kept i }

  pub create-IsOwned : IsOwned (apply_create g sn)
  unfolding apply_create
  create-IsOwned = record {
    directory = w.directory;
    home = w.home;
    held =
        AllHeld-append sn.origin_rows sn.phys_rows (owner_of sn) slots_after sn.snaps (g ∷ [])
          (held_after sn.snaps w.held) (new-IsHeld, tt);
    distinct = distinct_snoc sn.snaps g (elsewhere sn.snaps w.held) w.distinct;
    idle = w.idle;
    counted = omega (arith, w.counted, length_snoc sn.snaps);
  }
    where
      length_snoc : (k : List SnapOne) → length (k ++ g ∷ []) ≡ length k + 1
      length_snoc [] = refl
      length_snoc (a ∷ k) = omega (arith, length_snoc k)
