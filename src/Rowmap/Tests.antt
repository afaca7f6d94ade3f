-- ===== src/Rowmap/Tests.antt =====
-- Runs of the row map on an array of 3 rows and 2 members, and the theorems at that array.
use md_kmec.Base.{
  ℕ, zero, suc, ◌+◌, ◌/◌, ◌%◌, ◌^◌, ◌≤◌, ◌<◌, ◌≡◌, ◌≢◌, refl, List, [], ◌∷◌, true, false, not, ◌&&◌,
  none, some, arith, at, ◌==◌, if◌then◌else◌, leb, get_elem?, ap, sym, subst,
}
use md_kmec.Rowmap.Pack.{
  state_u, state_n, state_w, state_s, page_of, rows_per_page, state_in, set_state_in, state_in-set,
  put_field, field, byte_index,
}
use md_kmec.Rowmap.State.{Rowmap, get, put, need_of, is_dirty, IsSized}
use md_kmec.Rowmap.Note.{note_write, note_row, note_rows, any_change}
use md_kmec.Rowmap.Note.Effect.{state_after, note_write_states}
use md_kmec.Rowmap.Page.{check, seal, good, check-seal, KeepsZero, page_body, state_in-page_body}
use md_kmec.Rowmap.Member.{Member, Io, IsIo, write_slots, write_member}
use md_kmec.Rowmap.Flush.{
  Sys, Flight, is_past, stripe_parks, flush_begin, flush_page, flush_end, bitmap_empty,
}
use md_kmec.Rowmap.Safe.{IsUsed, HoldsRow, OnDisk, IsSafe}
use md_kmec.Rowmap.Safe.Steps.{Steps, start, next, stripe_parks-OnDisk, write, begin, page, end}
use md_kmec.Rowmap.Sync.{Pass, pass_end, skip_from, scan, skip_unwritten, replacing}
use md_kmec.Rowmap.Sync.Convert.{pass_end-states}
use md_kmec.Rowmap.Sync.Skip.{MaySkip, skip_from-MaySkip}
use md_kmec.Rowmap.Load.{init}
use md_kmec.Rowmap.Load.Best.{some_live}
use md_kmec.Rowmap.Load.Crash.{init-used}
use md_kmec.Rowmap.Wait.{wait_row}
use md_kmec.Rowmap.Wait.Done.{wait_row-ends}

-- A device that never fails, and the checksum 0 of everything.
abbrev ram : Io
ram = record {
  write = λ m p pg. (true, record m { pages = λ q. if p == q then pg else m.pages q });
  read = λ m p. some (m.pages p);
}

ram-IsIo : IsIo ram
ram-IsIo = record {
  stored = λ m p pg h. ground arith;
  others = λ m p q pg ne. ground arith;
  flags = λ m p pg. (refl, refl, refl);
  reads = λ m p e. cc;
}

abbrev no_crc : List ℕ → ℕ → ℕ → ℕ
no_crc body id gen = 0

no_crc-KeepsZero : KeepsZero no_crc
no_crc-KeepsZero body h = refl

-- Rows U, N and S: the byte 0b110100.
abbrev rows : Rowmap
rows = record {
  nrows = 3;
  npages = 1;
  chunk_sectors = 8;
  map = 52 ∷ [];
  dirty = false ∷ [];
  rec_skipped = false ∷ false ∷ false ∷ [];
  need = 0 ∷ [];
  epoch = 4;
  durable = 4;
  gen = 1;
  id = 7;
  pass_marked = true;
  lazy = false;
  counts = record {
    to_n = 0;
    to_w = 0;
    to_u = 0;
    flushes = 0;
    page_writes = 0;
    write_errors = 0;
    skipped_rows = 0;
    waits = 0;
    promoted = 0;
  };
}

rows-IsSized : IsSized rows
rows-IsSized = record {
  some_rows = omega arith;
  pages = omega arith;
  bytes = record { room = omega arith; is_byte = small };
  dirty_size = refl;
  need_size = refl;
  skipped_size = refl;
}
  where
    small : (i : ℕ) → at (52 ∷ []) i < 256
    small zero = omega arith
    small (suc i) = omega arith

-- A member that holds the map as it is.
abbrev holder : Member
holder = record {
  bdev = true;
  faulty = false;
  in_sync = true;
  pages = λ p. seal no_crc 7 (page_body rows.map 0) 1;
}

abbrev array : Sys
array = record { rm = rows; slots = some holder ∷ none ∷ some holder ∷ none ∷ [] }

holds :
    (r : ℕ)
    → r < 3
    → IsUsed rows r
    → (i : ℕ) (m : Member) → get_elem? array.slots i ≡ some (some m)
    → m ≡ holder
holds r h u zero m e = cc
holds r h u (suc zero) m e = absurd (cc)
holds r h u (suc (suc zero)) m e = cc
holds r h u (suc (suc (suc zero))) m e = absurd (cc)
holds r h u (suc (suc (suc (suc i)))) m e = absurd (cc)

array-OnDisk : (r : ℕ) → r < 3 → IsUsed rows r → OnDisk no_crc 7 r array.slots
unfolding get
array-OnDisk r h u = record {
  held = λ i m e l.
      let same = holds r h u i m e in
      subst (HoldsRow no_crc 7 r) (sym same) (record {
        gen = 1;
        is_good = check-seal no_crc no_crc-KeepsZero 7 (page_body rows.map 0) 1;
        used_there =
            let here : page_of r ≡ 0 = omega arith in
            let row = state_in-page_body rows.map r in
            unfold seal in
            omega
              (arith, u, ap (λ p. state_in (page_body rows.map p) (r % rows_per_page)) here, row);
      });
}

array-IsSafe : IsSafe no_crc array none
array-IsSafe = record {
  sized = rows-IsSized;
  epochs = omega arith;
  small = omega arith;
  asked = asked;
  clean = λ r h u c w. array-OnDisk r h u;
  settled = λ r h u n. array-OnDisk r h u;
  flying = tt;
}
  where
    asked : (p : ℕ) → need_of rows p ≤ 5
    asked zero = omega arith
    asked (suc p) = omega arith

-- A write to a part of row 0, and a flush in its pieces.
abbrev written : Sys
written = record array { rm = (note_write rows 16 0 4).0 }

abbrev begun : Rowmap × Flight
begun = flush_begin true written.rm

abbrev paged : Sys × Flight
paged = flush_page no_crc ram (record written { rm = begun.0 }) begun.1

abbrev flushed : Sys
flushed = record paged.0 { rm = (flush_end paged.0.rm paged.1).0 }

flushed-Steps : Steps no_crc ram array none flushed none
unfolding note_write note_rows note_row any_change get put flush_begin bitmap_empty flush_page
    flush_end state_in field byte_index set_state_in put_field write_slots write_member
flushed-Steps =
    next
      (next (next (next start (write array none 16 0 4)) (begin written true (omega arith)))
        (page (record written { rm = begun.0 }) begun.1))
      (end paged.0 paged.1 (omega arith))

-- The write parks its stripe until the flush is over, and a resync makes a row that is in S W.
rows_run :
    (stripe_parks written.rm 0 ≡ true)
    × (stripe_parks flushed.rm 0 ≡ false)
    × (get flushed.rm 0 ≡ state_n)
    × (is_dirty flushed.rm 0 ≡ false)
unfolding note_write note_rows note_row any_change get put flush_begin bitmap_empty flush_page
    flush_end state_in field byte_index set_state_in put_field write_slots write_member stripe_parks
rows_run = (refl, refl, refl, refl)

flushed-used : IsUsed flushed.rm 0
unfolding note_write note_rows note_row any_change get put flush_begin bitmap_empty flush_page
    flush_end state_in field byte_index set_state_in put_field write_slots write_member
flushed-used = omega arith

flushed-facts :
    (0 / flushed.rm.chunk_sectors ≡ 0)
    × (0 < flushed.rm.nrows)
    × (some_live flushed.slots ≡ true)
    × (24 / 8 ≡ flushed.rm.nrows)
unfolding note_write note_rows note_row any_change put flush_begin bitmap_empty flush_page flush_end
    write_slots write_member get state_in field byte_index some_live
flushed-facts = (refl, omega arith, refl, refl)

init-used_example :
    get (init no_crc ram flushed.rm.id 24 8 flushed.slots) (0 / flushed.rm.chunk_sectors) ≢ state_u
init-used_example =
    init-used no_crc ram-IsIo no_crc-KeepsZero 0 24 8 array-IsSafe flushed-Steps
      (omega (arith, flushed-facts.0, flushed-facts.1)) (rw (flushed-facts.0) flushed-used)
      (rows_run.1) (flushed-facts.2) (flushed-facts.3)

stripe_parks-OnDisk_example :
    OnDisk no_crc flushed.rm.id (0 / flushed.rm.chunk_sectors) flushed.slots
stripe_parks-OnDisk_example =
    stripe_parks-OnDisk no_crc ram-IsIo no_crc-KeepsZero 0 array-IsSafe flushed-Steps
      (omega (arith, flushed-facts.0, flushed-facts.1)) (rw (flushed-facts.0) flushed-used)
      (rows_run.1)

note_write_states_example : get (note_write rows 16 4 20).0 1 ≡ state_after 16 4 20 1 (get rows 1)
note_write_states_example =
    note_write_states rows 16 4 20 rows-IsSized (omega arith) (omega arith) (omega arith) 1
      (omega arith)

-- A resync of 24 sectors that came to its end.
abbrev resync : Pass
resync = record {
  sync = true;
  check = false;
  requested = true;
  intr = false;
  reshape = false;
  bitmap = true;
  fullsync = false;
  degraded = 0;
  max_degraded = 1;
  dev_sectors = 24;
}

pass_end-states_example : get (pass_end resync rows 24) 2 ≡ (
    if rows.pass_marked && not resync.intr && leb resync.dev_sectors 24 && get rows 2 == state_s
    then (if resync.bitmap && not resync.fullsync && not resync.requested then state_n else state_w)
    else get rows 2)
pass_end-states_example = pass_end-states resync rows 24 2 rows-IsSized (omega arith)

-- A recovery of two members that skips the unwritten row 0.
abbrev recovery : Pass
recovery = record resync { sync = false }

skips : 7 < 0 + (skip_from recovery array.slots rows 0 24).1
unfolding skip_from scan skip_unwritten replacing get state_in field byte_index
skips = omega arith

skip_from-MaySkip_example : MaySkip recovery (skip_from recovery array.slots rows 0 24).0 (7 / 8)
skip_from-MaySkip_example =
    skip_from-MaySkip recovery array.slots rows rows-IsSized (omega arith) (omega arith) 0 24 7
      (omega arith) (omega arith) skips

written-facts :
    (0 / written.rm.chunk_sectors < written.rm.nrows)
    × (written.rm.epoch + 2 < 2 ^ 63)
    × (need_of written.rm (page_of (0 / written.rm.chunk_sectors)) ≤ written.rm.epoch + 1)
unfolding note_write note_rows note_row any_change get put state_in field byte_index set_state_in
    put_field
written-facts = (omega arith, omega arith, omega arith)

wait_row-ends_example :
    (sys' : Sys) × (wait_row no_crc ram true 3 written 0 ≡ some sys')
    × (is_past (need_of written.rm (page_of (0 / written.rm.chunk_sectors))) sys'.rm.durable ≡ true)
wait_row-ends_example =
    wait_row-ends no_crc ram true written 0 (written-facts.0) (written-facts.1) (written-facts.2)

check-seal_example : check no_crc 7 (seal no_crc 7 (0 ∷ 0 ∷ []) 3) ≡ good 3
check-seal_example = check-seal no_crc no_crc-KeepsZero 7 (0 ∷ 0 ∷ []) 3

state_in-set_example :
    state_in (set_state_in rows.map 1 state_w) 2 ≡ (if 1 == 2 then state_w else state_in rows.map 2)
state_in-set_example =
    state_in-set {nrows = 3} {bytes = rows.map} 1 state_w 2 rows-IsSized.bytes (omega arith)
      (omega arith)
