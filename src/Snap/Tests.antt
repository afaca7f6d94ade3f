-- ===== src/Snap/Tests.antt =====
-- Runs of the model on a small array, and the theorems at it.
use md_kmec.Base.{
  ℕ, zero, suc, ◌+◌, ◌*◌, ◌<◌, ◌≡◌, ◌↔◌, refl, true, false, none, some, List, [], ◌∷◌, ltb, ◌==◌,
  arith, get_or, length, xa_load, xa_store, IsSortedFrom,
}
use md_kmec.Snap.Origin.{origin}
use md_kmec.Snap.Rmap.{rmap_get, default_owner, rmap_put, rmap_get-rmap_put}
use md_kmec.Snap.State.{
  Sn, SnapOne, create, destroy, owner_of, shared, newest, snap_slot, alloc_row, free_place,
  find_zero,
}
use md_kmec.Snap.Apply.{keep_row}
use md_kmec.Snap.View.{view}
use md_kmec.Snap.Owned.{IsOwned}
use md_kmec.Snap.Refine.{
  Action, cow, over, command, act, act_all, promise_all, AllAllowed, act_all_refines,
}
use md_kmec.Snap.Alloc.{alloc_row-none}
use md_kmec.Snap.Bio.{Bio, Io, write_op, discard_op, go, busy_slot, free_slot}
use md_kmec.Snap.MapBio.{map_rw, map_in_row, write_shared, start_cow, start_whole}
use md_kmec.Snap.MapBio.Safe.{IsWithin}
use md_kmec.Snap.Discard.{map_bio, discard, discard_idle, run_rows, cut_run, drop_or_pass}
use md_kmec.Snap.Spares.{IsUnseen, map_bio_write, map_bio_discard}

-- Two rows of the origin and two of the reserve, no snapshot.
abbrev small_array : Sn
small_array = record {
  phys_rows = 4;
  origin_rows = 2;
  row_sectors = 8;
  odir = none ∷ [];
  leaves = 0;
  used = λ p. ltb p 2;
  cursor = 0;
  redirected = 0;
  snaps = [];
  nsnaps = 0;
  next_id = 1;
  slots = λ s. false;
  rmap = [];
  rdirty = λ p. false;
  freed = 0;
  discards = [];
}

abbrev first_snap : SnapOne
first_snap = record { id = 1; slot = 0; name = 97 ∷ []; attrs = []; ctime = 7; exc = []; nexc = 0 }

small_array-IsOwned : IsOwned small_array
unfolding origin rmap_get default_owner xa_load
small_array-IsOwned = record {
  directory = record { entries = omega arith; whole = λ d leaf e. no_leaf d leaf e };
  home = λ row lt. at_home row lt;
  held = tt;
  distinct = tt;
  idle = λ p h. ground arith;
  counted = refl;
}
  where
    no_leaf : (d : ℕ) (leaf : List ℕ) → get_or (none ∷ []) d none ≡ some leaf → length leaf ≡ 1024
    no_leaf zero leaf e = absurd (cc e)
    no_leaf (suc d) leaf e = absurd (cc e)

    at_home :
        (row : ℕ)
        → row < 2
        → (origin (none ∷ []) row < 4) × (owner_of small_array (origin (none ∷ []) row) ≡ (1, row))
    at_home zero lt = (omega arith, refl)
    at_home (suc zero) lt = (omega arith, refl)
    at_home (suc (suc n)) lt = absurd (omega arith)

abbrev some_actions : List (Action ℕ)
some_actions = command (create first_snap) ∷ cow 0 2 10 ∷ over 0 11 ∷ command (destroy 0) ∷ []

some_actions-AllAllowed : AllAllowed some_actions (small_array, λ p. p)
unfolding act shared snap_slot origin rmap_get default_owner xa_load xa_store keep_row
some_actions-AllAllowed = (
  record { small = omega arith; vacant = refl; empty = refl; none_yet = refl },
  ((refl, omega arith, omega arith, refl), ((refl, omega arith), ((λ e. cc e), tt))),
)

act_all_refines_example :
    IsOwned (act_all some_actions (small_array, λ p. p)).0
    × (view
          (act_all some_actions (small_array, λ p. p)).0
          (act_all some_actions (small_array, λ p. p)).1
        ≡ promise_all some_actions (view small_array (λ p. p)))
act_all_refines_example =
    act_all_refines some_actions small_array (λ p. p) small_array-IsOwned some_actions-AllAllowed

alloc_row-none_example :
    ((alloc_row small_array).0 ≡ none) ↔ ((phys : ℕ) → phys < 4 → small_array.used phys ≡ true)
alloc_row-none_example = alloc_row-none small_array

-- The array with a snapshot.
abbrev with_snap : Sn
with_snap = record small_array { snaps = first_snap ∷ []; nsnaps = 1; slots = λ s. s == 0 }

with_snap-IsOwned : IsOwned with_snap
unfolding origin rmap_get default_owner xa_load IsSortedFrom
with_snap-IsOwned = record {
  directory = small_array-IsOwned.directory;
  home = small_array-IsOwned.home;
  held = (
    record { small = omega arith; taken = refl; sorted = tt; copies = λ row phys e. absurd (cc e) },
    tt,
  );
  distinct = (tt, tt);
  idle = small_array-IsOwned.idle;
  counted = refl;
}

abbrev io : Io
io = record {
  sn = with_snap;
  cow = none ∷ none ∷ [];
  overflow = [];
  hold = false;
  broken = false;
  cow_fail = 0;
  cow_nospc = 0;
  cow_whole = 0;
  cow_partial = 0;
  disc_rows = 0;
  disc_drop = 0;
}

-- A write of a whole row that the snapshot shares.
abbrev whole_row : Bio
whole_row = record { kind = write_op; sector = 8; sectors = 8; remapped = false }

abbrev whole_row_moved : Bio
whole_row_moved = record { kind = write_op; sector = 16; sectors = 8; remapped = true }

map_bio_write_example : (phys : ℕ) × IsWithin 8 phys whole_row_moved × IsUnseen with_snap phys
map_bio_write_example =
    map_bio_write true true io io whole_row whole_row_moved with_snap-IsOwned (omega arith) refl
      refl (omega arith) whole_row_goes
  where
    whole_row_goes : (map_bio true true io io whole_row).outcome ≡ go whole_row_moved
    whole_row_goes =
        unfold map_bio map_rw map_in_row write_shared start_cow free_slot start_whole alloc_row
          free_place find_zero shared newest busy_slot xa_load in
        refl

-- A discard of both rows, with no snapshot.
abbrev trim : Bio
trim = record { kind = discard_op; sector = 0; sectors = 16; remapped = false }

abbrev trim_moved : Bio
trim_moved = record { kind = discard_op; sector = 0; sectors = 16; remapped = true }

abbrev plain_io : Io
plain_io = record io { sn = small_array }

map_bio_discard_example :
    (phys : ℕ) × (n : ℕ) × (0 ≡ phys * 8)
    × (16 ≡ n * 8)
    × ((j : ℕ) → j < n → IsUnseen small_array (phys + j))
map_bio_discard_example =
    map_bio_discard true true plain_io plain_io trim trim_moved small_array-IsOwned (omega arith)
      refl refl (omega arith) trim_goes
  where
    trim_goes : (map_bio true true plain_io plain_io trim).outcome ≡ go trim_moved
    trim_goes =
        unfold map_bio discard discard_idle run_rows cut_run drop_or_pass shared newest busy_slot
          origin in
        refl

-- Row 2 of the reserve becomes the origin's.
rmap_get-rmap_put_example : rmap_get 2 (rmap_put 2 [] 2 0 1) 2 ≡ (1, 0)
rmap_get-rmap_put_example = rmap_get-rmap_put 2 [] 2 0 1 2
