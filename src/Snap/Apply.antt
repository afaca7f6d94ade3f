-- ===== src/Snap/Apply.antt =====
-- `rk_snap_apply` of km/raid_km-snap.c: the one place where the maps and the chain of snapshots
-- change, once the record of the operation is durable, and in a replay.
use md_kmec.Base.{
  ℕ, zero, suc, ◌+◌, ◌-◌, ◌/◌, ◌^◌, true, false, Option, none, some, List, [], ◌∷◌, ◌++◌, leb, ◌==◌,
  if◌then◌else◌, Xarray, xa_store, update, u64,
}
use md_kmec.Snap.Origin.{put_origin, leaf_of, leaf_rows, Directory}
use md_kmec.Snap.Rmap.{own_origin, own_snap, own_free}
use md_kmec.Snap.State.{Op}
use md_kmec.Snap.State.{
  Sn, SnapOne, Text, redirect, create, destroy, rename, newest, rmap_set, name_size, attrs_size,
  lacks,
}

-- `strscpy`: what fits below the NUL.
unfoldable pub strscpy : ℕ → Text → Text
strscpy zero s = []
strscpy (suc zero) s = []
strscpy (suc (suc n)) [] = []
strscpy (suc (suc n)) (b ∷ s) = b ∷ strscpy (suc n) s

-- A change of the snapshot that is the newest.
unfoldable pub on_newest : (SnapOne → SnapOne) → List SnapOne → List SnapOne
on_newest f [] = []
on_newest f (g ∷ []) = f g ∷ []
on_newest f (g ∷ h ∷ r) = g ∷ on_newest f (h ∷ r)

-- A change of the snapshot in a slot.
unfoldable pub on_slot : ℕ → (SnapOne → SnapOne) → List SnapOne → List SnapOne
on_slot s f [] = []
on_slot s f (g ∷ r) = let rest = on_slot s f r in if g.slot == s then f g ∷ r else g ∷ rest

-- The snapshot gets a copy of an origin row.
unfoldable pub keep_row : ℕ → ℕ → SnapOne → SnapOne
keep_row row phys g = record g { exc = xa_store g.exc row phys; nexc = g.nexc + 1 }

abbrev moved_by : ℕ → ℕ → ℕ
moved_by row phys = if phys == row then 0 else 1

-- A new leaf is counted.
abbrev new_leaf : Directory → ℕ → ℕ
new_leaf odir row = elim (leaf_of odir (row / leaf_rows)) [ none ↦ 1 | some _ ↦ 0 ]

-- RK_OP_REDIRECT on the newest snapshot `g`.
unfoldable pub apply_redirect : SnapOne → ℕ → ℕ → ℕ → Sn → Sn
unfolding rmap_set on_newest keep_row put_origin
apply_redirect g row old_phys new_phys sn =
    let held = rmap_set sn old_phys row (own_snap g.slot) in
    let owned = rmap_set held new_phys row own_origin in
    record owned {
      snaps = on_newest (keep_row row old_phys) sn.snaps;
      odir = put_origin sn.odir row new_phys;
      leaves = sn.leaves + new_leaf sn.odir row;
      redirected = u64 (sn.redirected + moved_by row new_phys + (2 ^ 64 - moved_by row old_phys));
      used = update sn.used new_phys true;
    }

-- RK_OP_CREATE.
unfoldable pub apply_create : SnapOne → Sn → Sn
apply_create g sn = record sn {
  snaps = sn.snaps ++ (g ∷ []);
  nsnaps = sn.nsnaps + 1;
  slots = update sn.slots g.slot true;
  next_id = if leb sn.next_id g.id then g.id + 1 else sn.next_id;
}

-- The entry goes to the next older snapshot, which read through this one.
unfoldable pub hand_down : SnapOne → ℕ → ℕ → Sn → Sn
unfolding rmap_set
hand_down older row phys sn = rmap_set sn phys row (own_snap older.slot)

-- Nobody reads the row any more: it is free, and the row map is told so.
unfoldable pub release_row : ℕ → Sn → Sn
unfolding rmap_set
release_row phys sn =
    let cleared = rmap_set sn phys 0 own_free in
    record cleared {
      used = update sn.used phys false;
      discards = sn.discards ++ (phys ∷ []);
      freed = sn.freed + 1;
    }

-- The rows of a snapshot that goes, in the order of the origin rows. The counts are those of the
-- rows moved and freed.
unfoldable pub drain : Option SnapOne → Xarray ℕ → Sn → ℕ → ℕ → Option SnapOne × Sn × ℕ × ℕ
unfolding hand_down release_row keep_row
drain older [] sn moved freed = (older, sn, moved, freed)
drain none ((row, phys) ∷ es) sn moved freed = drain none es (release_row phys sn) moved (freed + 1)
drain (some o) ((row, phys) ∷ es) sn moved freed =
    let down = drain (some (keep_row row phys o)) es (hand_down o row phys sn) (moved + 1) freed in
    let gone = drain (some o) es (release_row phys sn) moved (freed + 1) in
    if lacks (some o) row then down else gone

-- The chain at the snapshot of a slot: what is older, the snapshot, what is newer.
abbrev pub Cut : Type 0
Cut = List SnapOne × SnapOne × List SnapOne

abbrev pub under : SnapOne → Option Cut → Option Cut
under h none = none
under h (some (older, g, newer)) = some (h ∷ older, g, newer)

unfoldable pub cut : ℕ → List SnapOne → Option Cut
cut s [] = none
cut s (g ∷ r) = let rest = cut s r in if g.slot == s then some ([], g, r) else under g rest

abbrev pub or_same : Option SnapOne → SnapOne → SnapOne
or_same none g = g
or_same (some o) g = o

-- The snapshot is out of the chain, and the next older one has what it took over.
unfoldable pub unlink :
    List SnapOne → SnapOne → List SnapOne → Option SnapOne × Sn × ℕ × ℕ → Sn × ℕ × ℕ
unfolding on_newest
unlink older g newer (heir, sn, moved, freed) = (
  record sn {
    snaps = on_newest (or_same heir) older ++ newer;
    nsnaps = sn.nsnaps - 1;
    slots = update sn.slots g.slot false;
  },
  moved,
  freed,
)

-- RK_OP_DESTROY, with the counts that it reports.
unfoldable pub apply_destroy : SnapOne → List SnapOne → List SnapOne → Sn → Sn × ℕ × ℕ
unfolding unlink drain newest
apply_destroy g older newer sn = unlink older g newer (drain (newest older) g.exc sn 0 0)

abbrev pub at_newest : ℕ → ℕ → ℕ → Sn → Option SnapOne → Sn
at_newest row old_phys new_phys sn none = sn
at_newest row old_phys new_phys sn (some g) = apply_redirect g row old_phys new_phys sn

abbrev pub at_cut : Sn → Option Cut → Sn
at_cut sn none = sn
at_cut sn (some (older, g, newer)) = (apply_destroy g older newer sn).0

-- `rk_snap_apply`. Where the source would follow a null pointer, for want of the snapshot, nothing
-- changes here.
unfoldable pub apply : Sn → Op → Sn
unfolding apply_redirect apply_create apply_destroy on_slot strscpy newest cut
apply sn (redirect row old_phys new_phys) = at_newest row old_phys new_phys sn (newest sn.snaps)
apply sn (create g) = apply_create g sn
apply sn (destroy s) = at_cut sn (cut s sn.snaps)
apply sn (rename s text) = record sn {
  snaps = on_slot s (λ g. record g { name = strscpy name_size text }) sn.snaps;
}
apply sn (Op.set s text) = record sn {
  snaps = on_slot s (λ g. record g { attrs = strscpy attrs_size text }) sn.snaps;
}
