-- ===== src/Snap/Command/Sound.antt =====
-- What the commands of km/raid_km-snap.c submit is what the journal, a replay and the maps need.
use md_kmec.Base.{
  ℕ, ◌^◌, ◌<◌, ◌≡◌, ◌≢◌, refl, sym, subst, Bool, true, false, not, Option, none, some, List, [],
  ◌∷◌, ltb, leb, ◌==◌, if_rule, ◌⊎◌, inl, inr, arith, Bool-cases, Option-cases, ==_iff,
}
use md_kmec.Snap.State.{
  Sn, SnapOne, Text, Op, create, destroy, rename, name_size, attrs_size, snap_slots, snap_slot,
  find_next_zero,
}
use md_kmec.Snap.Apply.{strscpy}
use md_kmec.Snap.Alloc.{next_zero_clear}
use md_kmec.Snap.Owned.{IsOwned, AllHeld}
use md_kmec.Snap.Refine.{IsCommand}
use md_kmec.Snap.Record.RoundTrip.{IsText, IsRecordable, strscpy-short}
use md_kmec.Snap.Journal.Recover.{op_valid, is_slot}
use md_kmec.Snap.Attrs.{
  Error, invalid, no_memory, exists_already, not_found, no_slot, io_error, in_use, same_text,
  name_ok, attrs_apply,
}
use md_kmec.Snap.Attrs.Texts.{name_ok-IsText, attrs_apply-IsText}
use md_kmec.Snap.Command.{
  Outside, Command, create_named, destroy_named, rename_to, set_attrs, snap_find, is_found, new_one,
  in_free_slot, with_attrs, create_op, destroy_found, rename_found, rename_op, set_found, set_op,
  submitted,
}

-- The attributes of every snapshot fit their buffer.
abbrev pub AllAttrs : List SnapOne → Type 0
AllAttrs [] = Unit
AllAttrs (g ∷ r) = IsText attrs_size g.attrs × AllAttrs r

-- An operation that the maps, the journal and a replay take.
abbrev pub IsGood : Sn → Op → Type 0
IsGood sn op = IsCommand sn op × (op_valid sn op ≡ true) × IsRecordable op

abbrev Submits : Sn → Error ⊎ Op → Type 0
Submits sn o = (op : Op) → o ≡ inr op → IsGood sn op

Submits-inl : (sn : Sn) (e : Error) → Submits sn (inl e)
Submits-inl sn e op q = absurd (cc q)

Submits-inr : (sn : Sn) (op : Op) → IsGood sn op → Submits sn (inr op)
Submits-inr sn op h later q = let same : op ≡ later = cc q in subst (IsGood sn) same h

-- The snapshot of a name is in its slot.
pub record IsThere (chain : List SnapOne) (g : SnapOne) : Type 0 where
  pub small : g.slot < snap_slots
  pub texts : IsText attrs_size g.attrs
  pub here : snap_slot chain g.slot ≢ none

slot_here :
    (g h : SnapOne) (r : List SnapOne) → snap_slot r g.slot ≢ none → snap_slot (h ∷ r) g.slot ≢ none
unfolding snap_slot
slot_here g h r n = if_rule (λ o. o ≢ none) (h.slot == g.slot) (λ _ e. absurd (cc e)) (λ _. n)

slot_first : (g : SnapOne) (r : List SnapOne) → snap_slot (g ∷ r) g.slot ≢ none
unfolding snap_slot
slot_first g r = let here = (==_iff g.slot g.slot).1 refl in rw here (λ e. absurd (cc e))

find-IsThere :
    (rows phys_rows : ℕ) (own : ℕ → ℕ × ℕ) (slots : ℕ → Bool) (chain : List SnapOne) (name : Text)
    (g : SnapOne)
    → AllHeld rows phys_rows own slots chain
    → AllAttrs chain
    → snap_find chain name ≡ some g
    → IsThere chain g
unfolding snap_find
find-IsThere rows phys_rows own slots [] name g held texts e = absurd (cc e)
find-IsThere rows phys_rows own slots (h ∷ r) name g (hh, hr) (th, tr) e =
    elim (Bool-cases (same_text h.name name)) [
      | inl q ↦
          let f = rw q at e in
          let same : h ≡ g = cc f in
          subst (IsThere (h ∷ r)) same
            (record { small = hh.small; texts = th; here = slot_first h r })
      | inr q ↦
          let f = rw q at e in
          let ih = find-IsThere rows phys_rows own slots r name g hr tr f in
          record { small = ih.small; texts = ih.texts; here = slot_here g h r ih.here }
    ]

slot_ok : (sn : Sn) (g : SnapOne) → IsThere sn.snaps g → is_slot sn g.slot ≡ true
slot_ok sn g w = elim (Option-cases (snap_slot sn.snaps g.slot)) [
  | inl e ↦ absurd (w.here e)
  | inr (h, e) ↦
      let small : ltb g.slot snap_slots ≡ true = ground (arith, w.small) in rw (small, e) refl
]

module _ (sn : Sn) (w : IsOwned sn) (texts : AllAttrs sn.snaps) where
  -- A command on a snapshot that its name finds.
  on_found :
      (k : Option SnapOne → Error ⊎ Op) (name : Text)
      → Submits sn (k none)
      → ((g : SnapOne) → IsThere sn.snaps g → Submits sn (k (some g)))
      → Submits sn (k (snap_find sn.snaps name))
  on_found k name missing found = elim (Option-cases (snap_find sn.snaps name)) [
    | inl e ↦ subst (λ o. Submits sn (k o)) (sym e) missing
    | inr (g, e) ↦
        let there =
          find-IsThere sn.origin_rows sn.phys_rows _ sn.slots sn.snaps name g w.held texts e in
        subst (λ o. Submits sn (k o)) (sym e) (found g there)
  ]

  destroy-Submits :
      (o : Outside) (g : SnapOne) → IsThere sn.snaps g → Submits sn (destroy_found o (some g))
  destroy-Submits o g t =
      if_rule (Submits sn) o.openers (λ _. Submits-inl sn in_use)
        (λ _.
          if_rule (Submits sn) o.mem
            (λ _. Submits-inr sn (destroy g.slot) (t.here, unfold op_valid in slot_ok sn g t, tt))
            (λ _. Submits-inl sn no_memory))

  rename-Submits :
      (name : Text) (there : Bool) (g : SnapOne)
      → name_ok name ≡ true
      → IsThere sn.snaps g
      → Submits sn (rename_found name there (some g))
  rename-Submits name there g ok t =
      if_rule (Submits sn) there (λ _. Submits-inl sn exists_already)
        (λ _. Submits-inr sn (rename g.slot name) (
          t.here,
          unfold op_valid in slot_ok sn g t,
          (omega (arith, t.small), name_ok-IsText name ok),
        ))

  with-Submits :
      (k : Text → Error ⊎ Op) (o : Error ⊎ Text)
      → ((attrs : Text) → o ≡ inr attrs → Submits sn (k attrs))
      → Submits sn (with_attrs k o)
  with-Submits k (inl e) f = Submits-inl sn e
  with-Submits k (inr attrs) f = f attrs refl

  set-Submits :
      (o : Outside) (args : Text) (g : SnapOne)
      → IsThere sn.snaps g
      → Submits sn (set_found o args (some g))
  set-Submits o args g t =
      if_rule (Submits sn) o.mem
        (λ _.
          with-Submits (λ attrs. inr (Op.set g.slot attrs)) (attrs_apply o.mem g.attrs args)
            (λ attrs e. Submits-inr sn (Op.set g.slot attrs) (
              t.here,
              unfold op_valid in slot_ok sn g t,
              (omega (arith, t.small), attrs_apply-IsText o.mem g.attrs args attrs t.texts e),
            )))
        (λ _. Submits-inl sn no_memory)

  create-Submits :
      (o : Outside) (name attrs : Text)
      → name_ok name ≡ true
      → IsText attrs_size attrs
      → sn.next_id < 256 ^ 4
      → o.now < 256 ^ 8
      → Submits sn (in_free_slot o sn name (find_next_zero snap_slots sn.slots 0) attrs)
  create-Submits o name attrs ok fits id now =
      let slot = find_next_zero snap_slots sn.slots 0 in
      let named = name_ok-IsText name ok in
      let whole : strscpy name_size name ≡ name =
        strscpy-short 63 name (omega (arith, named.short)) in
      if_rule (Submits sn) (is_found (snap_find sn.snaps name)) (λ _. Submits-inl sn exists_already)
        (λ _.
          if_rule (Submits sn) (leb snap_slots slot) (λ _. Submits-inl sn no_slot)
            (λ room.
              if_rule (Submits sn) o.broken (λ _. Submits-inl sn io_error)
                (λ _.
                  let lt : slot < snap_slots = ground (arith, room) in
                  let free = next_zero_clear snap_slots sn.slots 0 lt in
                  let small : ltb slot snap_slots ≡ true = ground (arith, lt) in
                  Submits-inr sn (create (new_one o sn name slot attrs)) (
                    record { small = lt; vacant = free; empty = refl; none_yet = refl },
                    unfold op_valid in rw (small, free) refl,
                    (
                      id,
                      now,
                      omega (arith, lt),
                      subst (IsText name_size) (sym whole) named,
                      fits,
                      refl,
                      refl,
                    ),
                  ))))

bool_of_not : (b : Bool) → not b ≡ false → b ≡ true
bool_of_not true h = refl
bool_of_not false h = absurd (cc h)

-- What a command submits is a command of the refinement, an operation that a replay takes on the same
-- maps, and one that fits its record, if the ids and the time are of the sizes of their fields.
pub submitted-IsGood :
    (o : Outside) (sn : Sn) (c : Command) (op : Op)
    → IsOwned sn
    → AllAttrs sn.snaps
    → sn.next_id < 256 ^ 4
    → o.now < 256 ^ 8
    → submitted o sn c ≡ inr op
    → IsCommand sn op × (op_valid sn op ≡ true) × IsRecordable op
unfolding submitted create_op rename_op set_op
submitted-IsGood o sn (create_named name args) op w texts id now e =
    let slot = find_next_zero snap_slots sn.slots 0 in
    let empty : IsText attrs_size [] = record { short = omega arith; plain = tt } in
    if_rule (Submits sn) (not (name_ok name)) (λ _. Submits-inl sn invalid)
      (λ ok.
        if_rule (Submits sn) (not o.mem) (λ _. Submits-inl sn no_memory)
          (λ _.
            with-Submits sn w texts (in_free_slot o sn name slot) (attrs_apply o.mem [] args)
              (λ attrs q.
                create-Submits sn w texts o name attrs (bool_of_not (name_ok name) ok)
                  (attrs_apply-IsText o.mem [] args attrs empty q) id now)))
      op e
submitted-IsGood o sn (destroy_named name) op w texts id now e =
    on_found sn w texts (destroy_found o) name (Submits-inl sn not_found)
      (destroy-Submits sn w texts o) op e
submitted-IsGood o sn (rename_to old name) op w texts id now e =
    let there = is_found (snap_find sn.snaps name) in
    if_rule (Submits sn) (name_ok name)
      (λ ok.
        on_found sn w texts (rename_found name there) old (Submits-inl sn not_found)
          (λ g t. rename-Submits sn w texts name there g ok t))
      (λ _. Submits-inl sn invalid) op e
submitted-IsGood o sn (set_attrs name []) op w texts id now e = absurd (cc e)
submitted-IsGood o sn (set_attrs name (b ∷ r)) op w texts id now e =
    on_found sn w texts (set_found o (b ∷ r)) name (Submits-inl sn not_found)
      (set-Submits sn w texts o (b ∷ r)) op e
