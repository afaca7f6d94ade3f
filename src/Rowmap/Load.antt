-- ===== src/Rowmap/Load.antt =====
-- km/raid_km-rowmap.c, the start and the stop of the map: `rk_rm_load`, `raidkm_rowmap_init` up to
-- its checks of the devices, and `raidkm_rowmap_stop`.
pub mod Best
pub mod Crash
use md_kmec.Base.{
  ℕ, zero, suc, ◌+◌, ◌-◌, ◌*◌, ◌/◌, List, [], ◌∷◌, ◌++◌, fit, Bool, true, false, not, ◌&&◌, ◌||◌,
  Option, none, some, replicate, ltb, if◌then◌else◌,
}
use md_kmec.Rowmap.Pack.{body_bytes, rows_per_page}
use md_kmec.Rowmap.Page.{Page, Verdict, good, blank, untrusted, check}
use md_kmec.Rowmap.State.{Rowmap, Counts}
use md_kmec.Rowmap.Member.{Member, Slots, Io, usable}
use md_kmec.Rowmap.Flush.{Sys, bitmap_empty, flush}

-- The variables of the loop over the members: the best page so far, its generation, `have`, `bad`.
pub record Found : Type 0 where
  pub body : List ℕ
  pub best : ℕ
  pub have : Bool
  pub bad : Bool

-- Every row of a page N: the bytes 0x55.
abbrev pub all_n : List ℕ
all_n = replicate body_bytes 85

abbrev pub zeroes : List ℕ
zeroes = replicate body_bytes 0

-- What the verdict on a page does: the first good page, or a newer one, is copied.
unfoldable pub load_checked : Verdict → Page → Found → Found
load_checked (good gen) pg f =
    if not f.have || ltb f.best gen
    then record f { body = fit 0 body_bytes pg.body; best = gen; have = true }
    else f
load_checked blank pg f = f
load_checked untrusted pg f = record f { bad = true }

module _ (crc32c : List ℕ → ℕ → ℕ → ℕ) (io : Io) (id : ℕ) (p : ℕ) where
  -- What a page that was read does to the best one so far.
  unfoldable pub load_read : Option Page → Found → Found
  load_read none f = record f { bad = true }
  load_read (some pg) f = load_checked (check crc32c id pg) pg f

  -- The loop over the slots: the members that are in sync.
  unfoldable pub load_slots : Slots → Found → Found
  load_slots [] f = f
  load_slots (none ∷ slots) f = load_slots slots f
  load_slots (some m ∷ slots) f =
      load_slots slots (if usable m && m.in_sync then load_read (io.read m p) f else f)

  -- One page of the map, with the generation after it.
  unfoldable pub load_page : Slots → ℕ → List ℕ × ℕ
  load_page slots gen =
      let f = load_slots slots (record { body = zeroes; best = 0; have = false; bad = false }) in
      if f.have
      then (f.body, if ltb gen f.best then f.best else gen)
      else if f.bad
      then (all_n, gen)
      else (f.body, gen)

module _ (crc32c : List ℕ → ℕ → ℕ → ℕ) (io : Io) where
  -- The pages from `p` on.
  unfoldable pub load_pages : ℕ → ℕ → ℕ → Slots → ℕ → List ℕ × ℕ
  load_pages id zero p slots gen = ([], gen)
  load_pages id (suc left) p slots gen =
      let (body, gen') = load_page crc32c io id p slots gen in
      let (rest, last) = load_pages id left (p + 1) slots gen' in (body ++ rest, last)

  -- `raidkm_rowmap_init`: the fresh map of an array, with what the members hold.
  unfoldable pub init : ℕ → ℕ → ℕ → Slots → Rowmap
  init id dev_sectors chunk_sectors slots =
      let nrows = dev_sectors / chunk_sectors in
      let npages = (nrows + rows_per_page - 1) / rows_per_page in
      let (map, gen) = load_pages id npages 0 slots 0 in
      record {
        nrows = nrows;
        npages = npages;
        chunk_sectors = chunk_sectors;
        map = map;
        dirty = replicate npages false;
        rec_skipped = replicate nrows false;
        need = replicate npages 0;
        epoch = 0;
        durable = 0;
        gen = gen;
        id = id;
        pass_marked = false;
        lazy = false;
        counts = record {
          to_n = 0;
          to_w = 0;
          to_u = 0;
          flushes = 0;
          page_writes = 0;
          write_errors = 0;
          skipped_rows = 0;
          waits = 0;
          promoted = 0;
        };
      }

  -- `raidkm_rowmap_stop`: the lazy write-back is cancelled, and a change left is flushed.
  unfoldable pub stop : Bool → Sys → Sys
  stop alloc sys =
      let quiet = record sys { rm = record sys.rm { lazy = false } } in
      let flushed = (flush crc32c io alloc quiet).0 in
      if not (bitmap_empty sys.rm.dirty) then flushed else quiet
