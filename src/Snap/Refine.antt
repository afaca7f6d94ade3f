-- ===== src/Snap/Refine.antt =====
-- km/raid_km-snap.c as a whole: writes and commands, as they come, against the volume of which
-- /dev/mdX and the snapshot devices show the rows.
use md_kmec.Base.{
  ℕ, ◌<◌, ◌≡◌, ◌≢◌, refl, subst, ap, ◌∙◌, Bool, true, false, none, some, List, [], ◌∷◌, ◌==◌,
  update, Option-cases, Bool-cases, inl, inr,
}
use md_kmec.Snap.Origin.{origin}
use md_kmec.Snap.Rmap.{own_free}
use md_kmec.Snap.State.{
  Sn, SnapOne, Op, redirect, create, destroy, rename, owner_of, newest, lacks, shared, snap_slot,
  name_size, attrs_size,
}
use md_kmec.Snap.Apply.{apply, cut, under, Cut, strscpy}
use md_kmec.Snap.View.{Volume, view, write, freeze, forget}
use md_kmec.Snap.Owned.{IsOwned, AllHeld, IsHeld}
use md_kmec.Snap.Redirect.{IsRedirect, view-redirect}
use md_kmec.Snap.Redirect.Owners.{redirect-IsOwned}
use md_kmec.Snap.Create.{IsNew, view-create, create-IsOwned}
use md_kmec.Snap.Label.{on_slot-IsOwned, view-on_slot}
use md_kmec.Snap.InPlace.{view-over, view-spill}
use md_kmec.Snap.Destroy.{view-destroy, destroy-IsOwned}
use md_kmec.Snap.Destroy.Chain.{cut-IsCut}

-- What happens to the array: a write of a shared row, whose data is in the new row before the record
-- of the redirect is applied; a write in place; a write to a row that nobody owns, as a
-- copy-on-write leaves it that fails later; a command.
pub data Action {ℓ} (A : Type ℓ) : Type ℓ where
  cow : ℕ → ℕ → A → Action A
  over : ℕ → A → Action A
  spill : ℕ → A → Action A
  command : Op → Action A

-- A create is of a new snapshot, the other commands are of one that is there.
abbrev pub IsCommand : Sn → Op → Type 0
IsCommand sn (redirect row old_phys new_phys) = ⊥
IsCommand sn (create g) = IsNew sn g
IsCommand sn (destroy s) = snap_slot sn.snaps s ≢ none
IsCommand sn (rename s text) = snap_slot sn.snaps s ≢ none
IsCommand sn (Op.set s text) = snap_slot sn.snaps s ≢ none

module _ {ℓ} {A : Type ℓ} where
  unfoldable pub act : Action A → Sn × (ℕ → A) → Sn × (ℕ → A)
  unfolding apply
  act (cow row new_phys v) (sn, c) =
      (apply sn (redirect row (origin sn.odir row) new_phys), update c new_phys v)
  act (over row v) (sn, c) = (sn, update c (origin sn.odir row) v)
  act (spill phys v) (sn, c) = (sn, update c phys v)
  act (command op) (sn, c) = (apply sn op, c)

  -- What the code sees to before it acts.
  abbrev pub IsAllowed : Sn → Action A → Type 0
  IsAllowed sn (cow row new_phys v) =
      (shared sn row ≡ true)
      × (row < sn.origin_rows)
      × (new_phys < sn.phys_rows)
      × ((owner_of sn new_phys).0 ≡ own_free)
  IsAllowed sn (over row v) = (shared sn row ≡ false) × (row < sn.origin_rows)
  IsAllowed sn (spill phys v) = (owner_of sn phys).0 ≡ own_free
  IsAllowed sn (command op) = IsCommand sn op

  abbrev pub AllAllowed : List (Action A) → Sn × (ℕ → A) → Type 0
  AllAllowed [] s = Unit
  AllAllowed (a ∷ rest) s = IsAllowed s.0 a × AllAllowed rest (act a s)

  unfoldable pub act_all : List (Action A) → Sn × (ℕ → A) → Sn × (ℕ → A)
  act_all [] s = s
  act_all (a ∷ rest) s = act_all rest (act a s)

  -- The same on the volume.
  unfoldable pub promise : Action A → Volume A → Volume A
  promise (cow row new_phys v) vol = write row v vol
  promise (over row v) vol = write row v vol
  promise (spill phys v) vol = vol
  promise (command (redirect row old_phys new_phys)) vol = vol
  promise (command (create g)) vol = freeze g.slot vol
  promise (command (destroy s)) vol = forget s vol
  promise (command (rename s text)) vol = vol
  promise (command (Op.set s text)) vol = vol

  unfoldable pub promise_all : List (Action A) → Volume A → Volume A
  promise_all [] vol = vol
  promise_all (a ∷ rest) vol = promise_all rest (promise a vol)

newest-IsHeld :
    (rows phys_rows : ℕ) (own : ℕ → ℕ × ℕ) (slots : ℕ → Bool) (chain : List SnapOne) (g : SnapOne)
    → AllHeld rows phys_rows own slots chain
    → newest chain ≡ some g
    → IsHeld rows phys_rows own slots g
unfolding newest
newest-IsHeld rows phys_rows own slots [] g h e = absurd (cc e)
newest-IsHeld rows phys_rows own slots (a ∷ []) g (h, _) e =
    let same : a ≡ g = cc e in subst (IsHeld rows phys_rows own slots) same h
newest-IsHeld rows phys_rows own slots (a ∷ b ∷ r) g (_, h) e =
    newest-IsHeld rows phys_rows own slots (b ∷ r) g h e

-- A row that is shared is shared with a newest snapshot.
shared-newest :
    (sn : Sn) (row : ℕ)
    → shared sn row ≡ true
    → (g : SnapOne) × (newest sn.snaps ≡ some g) × (lacks (some g) row ≡ true)
unfolding shared
shared-newest sn row h = elim (Option-cases (newest sn.snaps)) [
  | inl e ↦ let f = rw e at h in absurd (cc f)
  | inr (g, e) ↦ (g, e, rw e at h)
]

-- A snapshot that is there is cut out of the chain.
cut_there :
    (s : ℕ) (chain : List SnapOne) → snap_slot chain s ≢ none → (c : Cut) × (cut s chain ≡ some c)
unfolding snap_slot cut
cut_there s [] h = absurd (h refl)
cut_there s (g ∷ r) h = elim (Bool-cases (g.slot == s)) [
  | inl e ↦ (([], g, r), rw e refl)
  | inr e ↦
      let (c, q) = cut_there s r (λ n. h (rw e n)) in ((g ∷ c.0, c.1, c.2), rw e (ap (under g) q))
]

module _ {ℓ} {A : Type ℓ} where
  command_lem :
      (op : Op) (sn : Sn) (c : ℕ → A)
      → IsOwned sn
      → IsCommand sn op
      → IsOwned (apply sn op) × (view (apply sn op) c ≡ promise (command op) (view sn c))
  unfolding apply promise
  command_lem (redirect row old_phys new_phys) sn c w ok = absurd ok
  command_lem (create g) sn c w ok = (create-IsOwned sn g w ok, view-create sn g w ok c)
  command_lem (destroy s) sn c w ok =
      let (d, e) = cut_there s sn.snaps ok in
      let i = cut-IsCut s sn.snaps d e in
      rw e (destroy-IsOwned sn s d.0 d.1 d.2 w i, view-destroy sn s d.0 d.1 d.2 w i c)
  command_lem (rename s text) sn c w ok =
      let f = λ (g : SnapOne). record g { name = strscpy name_size text } in
      (
        on_slot-IsOwned s f (λ g. (refl, refl, refl)) sn w,
        view-on_slot s f (λ g. (refl, refl, refl)) sn c,
      )
  command_lem (Op.set s text) sn c w ok =
      let f = λ (g : SnapOne). record g { attrs = strscpy attrs_size text } in
      (
        on_slot-IsOwned s f (λ g. (refl, refl, refl)) sn w,
        view-on_slot s f (λ g. (refl, refl, refl)) sn c,
      )

  cow_lem :
      (row new_phys : ℕ) (v : A) (sn : Sn) (c : ℕ → A)
      → IsOwned sn
      → IsAllowed sn (cow row new_phys v)
      → let after = apply sn (redirect row (origin sn.odir row) new_phys) in
        IsOwned after × (view after (update c new_phys v) ≡ write row v (view sn c))
  unfolding apply
  cow_lem row new_phys v sn c w (h, lt, fits, idle) =
      let (g, last, bare) = shared-newest sn row h in
      let ok : IsRedirect sn g row new_phys = record {
        last = last;
        inside = lt;
        fits = fits;
        idle = idle;
      } in
      let i =
        newest-IsHeld sn.origin_rows sn.phys_rows (owner_of sn) sn.slots sn.snaps g w.held last in
      rw last (
        redirect-IsOwned sn g row new_phys w ok i.small,
        view-redirect sn g row new_phys w ok c v bare,
      )

  -- Every action keeps the ownership in order and does to what is seen what it promises: a write
  -- changes one row of the origin and no snapshot, a create adds a snapshot that shows the origin of
  -- the moment, a destroy takes one away and no other changes.
  pub act_refines :
      (a : Action A) (sn : Sn) (c : ℕ → A)
      → IsOwned sn
      → IsAllowed sn a
      → IsOwned (act a (sn, c)).0
        × (view (act a (sn, c)).0 (act a (sn, c)).1 ≡ promise a (view sn c))
  unfolding act promise
  act_refines (cow row new_phys v) sn c w ok = cow_lem row new_phys v sn c w ok
  act_refines (over row v) sn c w (h, lt) = (w, view-over sn row v c w lt h)
  act_refines (spill phys v) sn c w ok = (w, view-spill sn phys v c w ok)
  act_refines (command op) sn c w ok = command_lem op sn c w ok

  -- The same for any sequence of actions.
  pub act_all_refines :
      (l : List (Action A)) (sn : Sn) (c : ℕ → A)
      → IsOwned sn
      → AllAllowed l (sn, c)
      → IsOwned (act_all l (sn, c)).0
        × (view (act_all l (sn, c)).0 (act_all l (sn, c)).1 ≡ promise_all l (view sn c))
  unfolding act_all promise_all
  act_all_refines [] sn c w ok = (w, refl)
  act_all_refines (a ∷ rest) sn c w (ok, more) =
      let (w', q) = act_refines a sn c w ok in
      let (w'', q') = act_all_refines rest (act a (sn, c)).0 (act a (sn, c)).1 w' more in
      (w'', q' ∙ ap (promise_all rest) q)
