-- ===== src/Snap/JournalTests.antt =====
-- The snapshots' metadata at concrete data: records, the layout, the derivation, a commit.
use md_kmec.Base.{
  ℕ, zero, suc, ◌*◌, ◌/◌, ◌⊎◌, update, xa_store, ◌<◌, ◌≤◌, ◌≡◌, refl, true, false, none, some, List,
  [], ◌∷◌, ◌++◌, length, ltb, ◌==◌, arith, get_or, xa_load, IsSortedFrom, inr,
}
use md_kmec.Snap.Origin.{origin, put_origin, rk_sn_leaf, identity_leaf, through}
use md_kmec.Snap.State.{Sn, SnapOne, create, rename, snap_slot}
use md_kmec.Snap.Apply.{on_slot, keep_row}
use md_kmec.Snap.Owned.{IsOwned}
use md_kmec.Snap.Record.{op_put, op_get, op_size}
use md_kmec.Snap.Record.RoundTrip.{op_get-op_put}
use md_kmec.Snap.Region.{
  page_map, record_slot, page_at, region_pages, rmap_pages, pmap_pages, region_layout,
}
use md_kmec.Snap.Derive.{
  derive, derive_start, derive_entries, derive_entry, derive_free, derive_origin, derive_copy,
  derive_end, all_moved, count_moved,
}
use md_kmec.Snap.Derive.Loop.{IsLoaded}
use md_kmec.Snap.Derive.Result.{IsRead, derive-IsOwned}
use md_kmec.Snap.Journal.Batch.{
  Journal, Members, Pending, committed, commit, commit_round, with_record, pack, any_data,
}
use md_kmec.Snap.Journal.Recover.{read_record, replay, op_valid}
use md_kmec.Snap.Journal.Replay.{AllReplayable}
use md_kmec.Snap.Journal.Crash.{commit_round-replay}
use md_kmec.Snap.Refine.{IsCommand}
use md_kmec.Snap.Record.RoundTrip.{IsRecordable}
use md_kmec.Snap.Attrs.{name_ok, all_of, same_text}
use md_kmec.Snap.Command.{Outside, rename_to, snap_find, rename_op, submitted}
use md_kmec.Snap.Command.Sound.{submitted-IsGood}
use md_kmec.Base.{Bool-cases, ◌||◌, inl, if◌then◌else◌}
use md_kmec.Snap.State.{redirect, owner_of}
use md_kmec.Snap.Region.{journal_slot}
use md_kmec.Snap.Journal.Batch.{Ring, write_batch, settle, scrub_ring}
use md_kmec.Snap.Journal.Settle.{IsClean}
use md_kmec.Snap.Journal.Ahead.{IsAhead}

abbrev new_snap : SnapOne
new_snap = record {
  id = 5;
  slot = 3;
  name = 97 ∷ 98 ∷ [];
  attrs = 107 ∷ 61 ∷ 118 ∷ [];
  ctime = 1000;
  exc = [];
  nexc = 0;
}

op_get-op_put_example :
    (op_get true (op_put (create new_snap) ++ 9 ∷ []) ≡ some (create new_snap, 9 ∷ []))
    × (length (op_put (create new_snap)) ≡ op_size (create new_snap))
op_get-op_put_example = op_get-op_put (create new_snap) (9 ∷ []) (
  omega arith,
  omega arith,
  omega arith,
  record { short = omega arith; plain = omega arith },
  record { short = omega arith; plain = omega arith },
  refl,
  refl,
)

region_layout_example :
    (page_at (rmap_pages 1000) (pmap_pages (rmap_pages 1000)) (record_slot 3) < region_pages 1000)
    × (page_at (rmap_pages 1000) (pmap_pages (rmap_pages 1000)) (record_slot 3)
          ≡ page_at (rmap_pages 1000) (pmap_pages (rmap_pages 1000)) (page_map 1 0)
        → record_slot 3 ≡ page_map 1 0)
    × (1000 ≤ rmap_pages 1000 * 510)
    × (rmap_pages 1000 ≤ pmap_pages (rmap_pages 1000) * 4080)
region_layout_example =
    region_layout 1000 (record_slot 3) (page_map 1 0) (omega arith)
      (unfold rmap_pages pmap_pages in omega arith)

-- What the disk says: row 0 of the origin has moved to row 2, its old row is the snapshot's.
abbrev on_disk : Sn
on_disk = record {
  phys_rows = 4;
  origin_rows = 2;
  row_sectors = 8;
  odir = none ∷ [];
  leaves = 0;
  used = λ p. false;
  cursor = 0;
  redirected = 0;
  snaps = new_snap ∷ [];
  nsnaps = 1;
  next_id = 6;
  slots = λ s. s == 3;
  rmap = (0, (5, 0)) ∷ (2, (1, 0)) ∷ [];
  rdirty = λ p. false;
  freed = 0;
  discards = [];
}

on_disk-IsLoaded : IsLoaded 4 on_disk.rmap
unfolding xa_load IsSortedFrom
on_disk-IsLoaded = record {
  sorted = omega arith;
  inside = λ idx owner row e. inside idx owner row e;
}
  where
    inside :
        (idx owner row : ℕ)
        → xa_load on_disk.rmap idx ≡ some (owner, row)
        → (idx < 4) × ((owner ≡ 0xffff) ⊎ ((0 < owner) × (owner < 258)))
    inside zero owner row e = let q : owner ≡ 5 = cc e in (omega arith, inr (omega (arith, q)))
    inside (suc zero) owner row e = absurd (cc e)
    inside (suc (suc zero)) owner row e =
        let q : owner ≡ 1 = cc e in (omega arith, inr (omega (arith, q)))
    inside (suc (suc (suc n))) owner row e = ground (arith, e)

on_disk-IsRead : IsRead on_disk
unfolding origin
on_disk-IsRead = record {
  loaded = on_disk-IsLoaded;
  fits = omega arith;
  directory = record { entries = omega arith; whole = λ d leaf e. no_leaf d leaf e };
  plain = λ row. same (row / 1024) row;
  fresh = ((omega arith, refl, refl), tt);
  distinct = (tt, tt);
  counted = refl;
}
  where
    no_leaf : (d : ℕ) (leaf : List ℕ) → get_or (none ∷ []) d none ≡ some leaf → length leaf ≡ 1024
    no_leaf zero leaf e = absurd (cc e)
    no_leaf (suc d) leaf e = absurd (cc e)

    same : (d row : ℕ) → through (get_or (none ∷ []) d none) row ≡ row
    same zero row = refl
    same (suc d) row = refl

-- The maps that the disk's reverse map stands for.
abbrev derived : Sn
derived = record on_disk {
  odir = put_origin (none ∷ []) 0 2;
  used = update (update (λ p. ltb p 2) 0 true) 2 true;
  redirected = 1;
  snaps = record new_snap { exc = (0, 0) ∷ []; nexc = 1 } ∷ [];
}

derive-IsOwned_example :
    IsOwned derived
    × ((p row : ℕ) → owner_of derived p ≡ (1, row) → origin derived.odir row ≡ p)
    × ((p : ℕ) → (owner_of derived p).0 ≡ 0xffff → derived.used p ≡ false)
    × (derived.rmap ≡ on_disk.rmap)
derive-IsOwned_example = derive-IsOwned on_disk derived on_disk-IsRead taken
  where
    taken : derive on_disk ≡ some derived
    taken =
        unfold derive derive_start derive_entries derive_entry derive_free derive_origin derive_copy
          derive_end all_moved count_moved put_origin rk_sn_leaf identity_leaf origin on_slot
          keep_row snap_slot xa_load xa_store in
        refl

-- A snapshot that shares both rows, and the same state with row 2 taken by a copy-on-write.
abbrev shared_disk : Sn
shared_disk = record on_disk { rmap = []; used = λ p. ltb p 2 }

abbrev shared_live : Sn
shared_live = record shared_disk { used = λ p. ltb p 2 || (p == 2); cursor = 3 }

-- A journal after a load: the record after the head is left from a batch that was torn.
abbrev old_ring : Ring
old_ring = λ s. if s == 6 then some (6, []) else none

abbrev loaded_journal : Journal
loaded_journal = record { head = 5; tail = 3; broken = false; scrub = true; ring = old_ring }

loaded_journal-IsClean : IsClean loaded_journal
unfolding read_record
loaded_journal-IsClean = record { here = refl; past = λ q lo. late q lo }
  where
    late : (q : ℕ) → 37 ≤ q → read_record old_ring q ≡ none
    late q lo = elim (Bool-cases (journal_slot q == 6)) [
      | inl e ↦ let f : (6 == q) ≡ false = ground arith in rw (e, f) refl
      | inr e ↦ rw e refl
    ]

abbrev good_members : Members
good_members = record {
  checkpoints = true;
  scrubs = true;
  reached = λ s. false;
  flushes = true;
  takes = true;
  torn = λ s. none;
}

abbrev copying : List Pending
copying = (redirect 0 0 2, false) ∷ []

commit_round-replay_example :
    (later : Sn) × (replay 1025 true
        (commit_round good_members shared_live loaded_journal copying).0.journal.ring
        5
        shared_disk
      ≡ some (later, (commit_round good_members shared_live loaded_journal copying).0.journal.head))
    × IsAhead
        (λ p. p == 2)
        (commit_round good_members shared_live loaded_journal copying).0.sn
        later
commit_round-replay_example =
    commit_round-replay (λ p. p == 2) good_members shared_live shared_disk loaded_journal copying
      (record { same = refl; marks = λ p. more p (Bool-cases (p == 2)) }) loaded_journal-IsClean
      can_replay goes
  where
    more :
        (p : ℕ)
        → ((p == 2) ≡ true) ⊎ ((p == 2) ≡ false)
        → ((ltb p 2 || (p == 2)) ≡ ltb p 2) ⊎ (((p == 2) ≡ true) × ((ltb p 2 || (p == 2)) ≡ true))
    more p (inl e) = inr (e, ground (arith, e))
    more p (inr e) = inl (ground (arith, e))

    can_replay : AllReplayable (with_record copying) shared_disk
    can_replay =
        unfold with_record op_valid origin in ((omega arith, omega arith, omega arith), refl, tt)

    goes : (commit_round good_members shared_live loaded_journal copying).0.fate ≡ committed
    goes =
        unfold commit_round commit write_batch settle scrub_ring with_record pack any_data in refl

-- Members that fail the flush of the data.
abbrev bad_members : Members
bad_members = record good_members { flushes = false }

-- A rename of the snapshot `ab` to `c`.
abbrev outside : Outside
outside = record { mem = true; openers = false; broken = false; now = 2000 }

submitted-IsGood_example :
    IsCommand derived (rename 3 (99 ∷ []))
    × (op_valid derived (rename 3 (99 ∷ [])) ≡ true)
    × IsRecordable (rename 3 (99 ∷ []))
submitted-IsGood_example =
    submitted-IsGood outside derived (rename_to (97 ∷ 98 ∷ []) (99 ∷ [])) (rename 3 (99 ∷ []))
      derive-IsOwned_example.0 (record { short = omega arith; plain = omega arith }, tt)
      (omega arith) (omega arith) goes
  where
    goes : submitted outside derived (rename_to (97 ∷ 98 ∷ []) (99 ∷ [])) ≡ inr (rename 3 (99 ∷ []))
    goes = unfold submitted rename_op name_ok all_of snap_find same_text on_slot in refl
