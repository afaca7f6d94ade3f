-- ===== src/Snap/Command.antt =====
-- The commands of km/raid_km-snap.c: `rk_snap_create`, `rk_snap_destroy`, `rk_snap_rename` and
-- `rk_snap_set`, up to the operation that they submit to the journal.
pub mod Sound
use md_kmec.Base.{
  ℕ, Bool, true, false, not, Option, none, some, List, [], ◌∷◌, leb, if◌then◌else◌, ◌⊎◌, inl, inr,
}
use md_kmec.Snap.State.{
  Sn, SnapOne, Text, Op, create, destroy, rename, name_size, snap_slots, find_zero, find_next_zero,
}
use md_kmec.Snap.Apply.{strscpy}
use md_kmec.Snap.Attrs.{
  Error, invalid, no_memory, exists_already, not_found, no_slot, io_error, in_use, same_text,
  name_ok, attrs_apply,
}

-- What is outside: memory is there, the snapshot's disk is open, the metadata is read-only, the time.
pub record Outside : Type 0 where
  pub mem : Bool
  pub openers : Bool
  pub broken : Bool
  pub now : ℕ

pub data Command : Type 0 where
  create_named : Text → Text → Command
  destroy_named : Text → Command
  rename_to : Text → Text → Command
  set_attrs : Text → Text → Command

-- `rk_snap_find`.
unfoldable pub snap_find : List SnapOne → Text → Option SnapOne
unfolding same_text
snap_find [] name = none
snap_find (g ∷ r) name =
    let rest = snap_find r name in if same_text g.name name then some g else rest

abbrev pub is_found : Option SnapOne → Bool
is_found none = false
is_found (some g) = true

abbrev pub new_one : Outside → Sn → Text → ℕ → Text → SnapOne
new_one o sn name slot attrs = record {
  id = sn.next_id;
  slot = slot;
  name = strscpy name_size name;
  attrs = attrs;
  ctime = o.now;
  exc = [];
  nexc = 0;
}

abbrev pub in_free_slot : Outside → Sn → Text → ℕ → Text → Error ⊎ Op
in_free_slot o sn name slot attrs =
    if is_found (snap_find sn.snaps name)
    then inl exists_already
    else if leb snap_slots slot
    then inl no_slot
    else if o.broken
    then inl io_error
    else inr (create (new_one o sn name slot attrs))

abbrev pub with_attrs : (Text → Error ⊎ Op) → Error ⊎ Text → Error ⊎ Op
with_attrs k (inl e) = inl e
with_attrs k (inr attrs) = k attrs

unfoldable pub create_op : Outside → Sn → Text → Text → Error ⊎ Op
unfolding name_ok attrs_apply snap_find strscpy
create_op o sn name args =
    let slot = find_next_zero snap_slots sn.slots 0 in
    if not (name_ok name)
    then inl invalid
    else if not o.mem
    then inl no_memory
    else with_attrs (in_free_slot o sn name slot) (attrs_apply o.mem [] args)

-- The destroy of an open snapshot is refused; else the rows that the next older one takes over are
-- reserved first.
abbrev pub destroy_found : Outside → Option SnapOne → Error ⊎ Op
destroy_found o none = inl not_found
destroy_found o (some g) =
    if o.openers then inl in_use else if o.mem then inr (destroy g.slot) else inl no_memory

abbrev pub rename_found : Text → Bool → Option SnapOne → Error ⊎ Op
rename_found name there none = inl not_found
rename_found name there (some g) = if there then inl exists_already else inr (rename g.slot name)

unfoldable pub rename_op : Sn → Text → Text → Error ⊎ Op
unfolding name_ok snap_find
rename_op sn old name =
    if name_ok name
    then rename_found name (is_found (snap_find sn.snaps name)) (snap_find sn.snaps old)
    else inl invalid

abbrev pub set_found : Outside → Text → Option SnapOne → Error ⊎ Op
set_found o args none = inl not_found
set_found o args (some g) =
    if o.mem
    then with_attrs (λ attrs. inr (Op.set g.slot attrs)) (attrs_apply o.mem g.attrs args)
    else inl no_memory

unfoldable pub set_op : Outside → Sn → Text → Text → Error ⊎ Op
unfolding attrs_apply snap_find
set_op o sn name [] = inl invalid
set_op o sn name (b ∷ r) = set_found o (b ∷ r) (snap_find sn.snaps name)

-- The operation of a command, or the error that it ends with.
unfoldable pub submitted : Outside → Sn → Command → Error ⊎ Op
unfolding create_op rename_op set_op
submitted o sn (create_named name args) = create_op o sn name args
submitted o sn (destroy_named name) = destroy_found o (snap_find sn.snaps name)
submitted o sn (rename_to old name) = rename_op sn old name
submitted o sn (set_attrs name args) = set_op o sn name args
