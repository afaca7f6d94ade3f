-- ===== src/Rowmap/Sync.antt =====
-- km/raid_km-rowmap.c, the sync passes: `rk_rm_convert`, `rk_rm_skippable`,
-- `raidkm_rowmap_rec_skipped`, `raidkm_rowmap_member_added`, `rk_rm_replacing`, `rk_rm_seed`,
-- `raidkm_rowmap_sync_skip`, `raidkm_rowmap_run_end` and `raidkm_rowmap_pass_end`.
pub mod Convert
pub mod Skip
use md_kmec.Base.{
  ℕ, zero, suc, ◌+◌, ◌-◌, ◌*◌, ◌/◌, ◌^◌, List, [], ◌∷◌, Bool, true, false, not, ◌&&◌, ◌||◌, Option,
  none, some, set, get_or, u64, replicate, ltb, leb, ◌==◌, if◌then◌else◌,
}
use md_kmec.Rowmap.Pack.{state_u, state_n, state_w, state_s, set_state_in, rows_per_page, page_of}
use md_kmec.Rowmap.Page.{page_body, seal}
use md_kmec.Rowmap.State.{Rowmap, Counts, get, put}
use md_kmec.Rowmap.Note.{queue_lazy}
use md_kmec.Rowmap.Member.{Member, Slots, Io, usable, write_slots}
use md_kmec.Rowmap.Flush.{Sys, flush}

abbrev pub min : ℕ → ℕ → ℕ
min a b = if leb a b then a else b

-- The body of the loop of `rk_rm_convert`, with the rows counted so far.
unfoldable pub convert_row : ℕ → ℕ → Bool → ℕ → Rowmap × ℕ → Rowmap × ℕ
convert_row from to persist r (rm, n) = if not (get rm r == from) then (rm, n) else (
  if persist then put rm r to else record rm { map = set_state_in rm.map r to },
  u64 (n + 1),
)

-- The rows of one page, from `r` on.
unfoldable pub convert_rows : ℕ → ℕ → Bool → ℕ → ℕ → Rowmap × ℕ → Rowmap × ℕ
convert_rows from to persist zero r x = x
convert_rows from to persist (suc left) r x =
    convert_rows from to persist left (r + 1) (convert_row from to persist r x)

-- The pages from `p` on.
unfoldable pub convert_pages : ℕ → ℕ → Bool → ℕ → ℕ → Rowmap × ℕ → Rowmap × ℕ
convert_pages from to persist zero p x = x
convert_pages from to persist (suc left) p x =
    let r = p * rows_per_page in
    let end = min x.0.nrows (r + rows_per_page) in
    convert_pages from to persist left (p + 1) (convert_rows from to persist (end - r) r x)

unfoldable pub convert : Rowmap → ℕ → ℕ → Bool → Rowmap × ℕ
convert rm from to persist = convert_pages from to persist rm.npages 0 (rm, 0)

-- What a pass reads of its array: the flags of `mddev->recovery`, whether there is a bitmap, and
-- the counts.
pub record Pass : Type 0 where
  pub sync : Bool
  pub check : Bool
  pub requested : Bool
  pub intr : Bool
  pub reshape : Bool
  pub bitmap : Bool
  pub fullsync : Bool
  pub degraded : ℕ
  pub max_degraded : ℕ
  pub dev_sectors : ℕ

-- `rk_rm_skippable`.
unfoldable pub skippable : Pass → ℕ → Bool
skippable pass st =
    if st == state_u then true else pass.check && ((st == state_n) || (st == state_s))

-- `test_no_recskip` is the module parameter `rowmap_test_no_recskip`.
unfoldable pub rec_skipped : Bool → Rowmap → ℕ → Bool
rec_skipped test_no_recskip rm msect =
    let row = msect / rm.chunk_sectors in
    not test_no_recskip && ltb row rm.nrows && get_or rm.rec_skipped row false

unfoldable pub member_added : Rowmap → Rowmap
member_added rm = record rm { rec_skipped = replicate rm.nrows false }

-- `rk_rm_replacing`: is there a replacement that has not failed? The first slot is a member's.
unfoldable pub replacing : Slots → Bool
replacing [] = false
replacing (m ∷ []) = false
replacing (m ∷ none ∷ slots) = replacing slots
replacing (m ∷ some r ∷ slots) = not r.faulty || replacing slots

-- The scan of a resync or a check from row `r` on: where it stops.
unfoldable pub skip_run : Pass → Rowmap → ℕ → ℕ → ℕ
skip_run pass rm zero r = r
skip_run pass rm (suc left) r =
    let rest = skip_run pass rm left (r + 1) in if skippable pass (get rm r) then rest else r

-- The scan of a recovery from row `r` on, which marks the rows that it skips.
unfoldable pub skip_unwritten : ℕ → ℕ → Rowmap → Rowmap × ℕ
skip_unwritten zero r rm = (rm, r)
skip_unwritten (suc left) r rm =
    let rest =
      skip_unwritten left (r + 1) (record rm { rec_skipped = set rm.rec_skipped r true }) in
    if get rm r == state_u then rest else (rm, r)

-- The rows that a pass of up to `max_sector` sectors has. `cs` is the chunk size.
abbrev pub row_limit : Rowmap → ℕ → ℕ
row_limit rm max_sector =
    min rm.nrows (u64 (max_sector + rm.chunk_sectors + 2 ^ 64 - 1) / rm.chunk_sectors)

-- The scan of `raidkm_rowmap_sync_skip`: the map after it, and the first row that is not skipped.
unfoldable pub scan : Pass → Slots → Rowmap → ℕ → ℕ → Rowmap × ℕ
scan pass slots rm row lim =
    if not pass.sync
    then (if replacing slots
        then (rm, row)
        else skip_unwritten (min lim (row + rows_per_page) - row) row rm)
    else (rm, skip_run pass rm (min lim (row + 2 ^ 20) - row) row)

-- The end of `raidkm_rowmap_sync_skip`, from the scan on.
unfoldable pub skip_from : Pass → Slots → Rowmap → ℕ → ℕ → Rowmap × ℕ
skip_from pass slots rm sector_nr max_sector =
    let row = sector_nr / rm.chunk_sectors in
    let (rm', r) = scan pass slots rm row (row_limit rm max_sector) in
    let counts = record rm'.counts { skipped_rows = u64 (rm'.counts.skipped_rows + (r - row)) } in
    if r == row then (rm', 0) else (
      record rm' { counts = counts },
      u64 (min (u64 (r * rm.chunk_sectors)) max_sector + 2 ^ 64 - sector_nr),
    )

-- `raidkm_rowmap_run_end`, from the row `r` on.
unfoldable pub run_from : Pass → Rowmap → ℕ → ℕ → ℕ → ℕ → ℕ
run_from pass rm sector_nr end zero r = end
run_from pass rm sector_nr end (suc left) r =
    let rest = run_from pass rm sector_nr end left (r + 1) in
    let start = min (u64 (r * rm.chunk_sectors)) end in
    if skippable pass (get rm r) then (if leb sector_nr start then start else sector_nr) else rest

unfoldable pub run_end : Pass → Slots → Rowmap → ℕ → ℕ → ℕ
run_end pass slots rm sector_nr end =
    let first = sector_nr / rm.chunk_sectors in
    if not pass.sync && replacing slots
    then end
    else run_from pass rm sector_nr end (row_limit rm end - first) first

-- `raidkm_rowmap_pass_end`.
unfoldable pub pass_end : Pass → Rowmap → ℕ → Rowmap
pass_end pass rm max_sector =
    let over = record rm { pass_marked = false } in
    let (rm', n) = convert over state_s state_w true in
    let counts = record rm'.counts { promoted = u64 (rm'.counts.promoted + n) } in
    if not rm.pass_marked
    then rm
    else if pass.intr || ltb max_sector pass.dev_sectors
    then over
    else if pass.bitmap && not pass.fullsync && not pass.requested
    then (convert over state_s state_n false).0
    else if n == 0
    then rm'
    else queue_lazy (record rm' { counts = counts })

module _ (crc32c : List ℕ → ℕ → ℕ → ℕ) (io : Io) where
  -- The pages of the map to the member of slot `slot`, from `p` on.
  unfoldable pub seed_pages : ℕ → ℕ → ℕ → Sys → Sys
  seed_pages slot zero p sys = sys
  seed_pages slot (suc left) p sys =
      let rm = sys.rm in
      let pg = seal crc32c rm.id (page_body rm.map p) rm.gen in
      let w = write_slots io (some slot) p pg 0 sys.slots in
      let counts = record rm.counts {
        page_writes = u64 (rm.counts.page_writes + w.ok);
        write_errors = u64 (rm.counts.write_errors + w.errors);
      } in
      seed_pages slot left (p + 1) (record { rm = record rm { counts = counts }; slots = w.slots })

  -- The loop over the slots, as they are on entry. The pages go to a member that is not in sync.
  unfoldable pub seed_slots : ℕ → Slots → Sys → Sys
  seed_slots slot [] sys = sys
  seed_slots slot (none ∷ slots) sys = seed_slots (slot + 1) slots sys
  seed_slots slot (some m ∷ slots) sys =
      seed_slots (slot + 1) slots
        (if usable m && not m.in_sync then seed_pages slot sys.rm.npages 0 sys else sys)

  -- `rk_rm_seed`, without the snapshot's own `raidkm_snap_seed`.
  unfoldable pub seed : Bool → Sys → Sys
  seed alloc sys = let flushed = (flush crc32c io alloc sys).0 in seed_slots 0 flushed.slots flushed

  -- What `raidkm_rowmap_sync_skip` does at the start of a pass.
  unfoldable pub pass_start : Bool → Pass → Sys → Sys
  pass_start alloc pass sys =
      let cleared = record sys.rm { rec_skipped = replicate sys.rm.nrows false } in
      let marked = record (convert sys.rm state_n state_s false).0 { pass_marked = true } in
      if not pass.sync
      then seed alloc (record sys { rm = cleared })
      else if not pass.check && not sys.rm.pass_marked && pass.degraded == 0
      then record sys { rm = marked }
      else sys

  -- The whole of it, with the number of sectors to skip.
  unfoldable pub sync_skip : Bool → Pass → Sys → ℕ → ℕ → Sys × ℕ
  sync_skip alloc pass sys sector_nr max_sector =
      let started = if sector_nr == 0 then pass_start alloc pass sys else sys in
      let rm = started.rm in
      let lost = rm.pass_marked && leb pass.max_degraded pass.degraded in
      let rm' = if lost then record rm { pass_marked = false } else rm in
      let (rm'', n) = skip_from pass started.slots rm' sector_nr max_sector in
      if pass.reshape then (sys, 0) else (record started { rm = rm'' }, n)
