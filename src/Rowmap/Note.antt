-- ===== src/Rowmap/Note.antt =====
-- km/raid_km-rowmap.c, the state changes that a write or a discard makes:
-- `raidkm_rowmap_note_write`, `raidkm_rowmap_note_row_written`, `raidkm_rowmap_note_discard`, and
-- the test `raidkm_rowmap_force_rcw`.
pub mod Rows
pub mod Effect
use md_kmec.Base.{
  ℕ, zero, suc, ◌+◌, ◌-◌, ◌*◌, ◌/◌, ◌^◌, List, Bool, true, false, not, ◌&&◌, ◌||◌, set, u64, ltb,
  leb, ◌==◌, if◌then◌else◌,
}
use md_kmec.Rowmap.Pack.{state_u, state_n, state_w, state_s, page_of}
use md_kmec.Rowmap.State.{Rowmap, Counts, get, put}

-- The array sectors of a row, `raidkm_row_data_sectors`: a chunk of every data column.
abbrev pub row_data_sectors : ℕ → ℕ → ℕ
row_data_sectors chunk_sectors data_cols = u64 (chunk_sectors * data_cols)

-- Does [sector, end) cover row `r` of `rs` sectors whole?
abbrev pub is_full : ℕ → ℕ → ℕ → ℕ → Bool
is_full rs sector end r = leb sector (u64 (r * rs)) && leb (u64 ((r + 1) * rs)) end

-- `queue_delayed_work` on the lazy write-back.
abbrev pub queue_lazy : Rowmap → Rowmap
queue_lazy rm = record rm { lazy = true }

-- The state of the second loop: the map, and the flags `durable` and `lazy`.
pub record Noted : Type 0 where
  pub rm : Rowmap
  pub durable : Bool
  pub queued : Bool

abbrev pub count_to_n : Rowmap → Rowmap
count_to_n rm = record rm { counts = record rm.counts { to_n = u64 (rm.counts.to_n + 1) } }

abbrev pub count_to_w : Rowmap → Rowmap
count_to_w rm = record rm { counts = record rm.counts { to_w = u64 (rm.counts.to_w + 1) } }

module _ (rs sector end : ℕ) where
  -- The first loop, which only looks: is there a row to change?
  unfoldable pub any_change : ℕ → ℕ → Rowmap → Bool
  any_change zero r rm = false
  any_change (suc left) r rm =
      let st = get rm r in
      let rest = any_change left (r + 1) rm in
      if (st == state_u) || (not (st == state_w) && is_full rs sector end r) then true else rest

  -- The body of the second loop: `need` first, then the state.
  unfoldable pub note_row : ℕ → Noted → Noted
  note_row r n =
      let rm = n.rm in
      let st = get rm r in
      let full = is_full rs sector end r in
      let rm' = record rm { need = set rm.need (page_of r) (u64 (rm.epoch + 1)) } in
      let left_u =
        if full
        then record n { rm = count_to_w (put rm' r state_w); durable = true }
        else record n { rm = count_to_n (put rm' r state_n); durable = true } in
      if st == state_u
      then left_u
      else if not (st == state_w) && full
      then record n { rm = count_to_w (put rm r state_w); queued = true }
      else n

  unfoldable pub note_rows : ℕ → ℕ → Noted → Noted
  note_rows zero r n = n
  note_rows (suc left) r n = note_rows left (r + 1) (note_row r n)

-- The map after it, and whether a row left U.
unfoldable pub note_write : Rowmap → ℕ → ℕ → ℕ → Rowmap × Bool
note_write rm rs sector sectors =
    let end = u64 (sector + sectors) in
    let first = sector / rs in
    let reach = u64 (end + 2 ^ 64 - 1) / rs in
    let last = if leb rm.nrows reach then rm.nrows - 1 else reach in
    let left = last + 1 - first in
    let noted =
      note_rows rs sector end left first (record { rm = rm; durable = false; queued = false }) in
    if sectors == 0
    then (rm, false)
    else if not (any_change rs sector end left first rm)
    then (rm, false)
    else (
      if noted.queued && not noted.durable then queue_lazy noted.rm else noted.rm,
      noted.durable,
    )

-- A row that was written whole in several bios.
unfoldable pub note_row_written : Rowmap → ℕ → Rowmap
note_row_written rm row =
    if leb rm.nrows row
    then rm
    else if (get rm row == state_n) || (get rm row == state_s)
    then queue_lazy (count_to_w (put rm row state_w))
    else rm

-- The loop over the discarded rows, with the number of rows that changed.
unfoldable pub discard_rows : ℕ → ℕ → Rowmap × ℕ → Rowmap × ℕ
discard_rows zero r (rm, n) = (rm, n)
discard_rows (suc left) r (rm, n) =
    discard_rows left (r + 1)
      (if not (get rm r == state_u) then (put rm r state_u, n + 1) else (rm, n))

unfoldable pub note_discard : Rowmap → ℕ → ℕ → Rowmap
note_discard rm first_row last_row =
    let last = if ltb rm.nrows last_row then rm.nrows else last_row in
    let (rm', n) = discard_rows (last - first_row) first_row (rm, 0) in
    if n == 0
    then rm'
    else queue_lazy (record rm' { counts = record rm'.counts { to_u = u64 (rm'.counts.to_u + n) } })

-- Must a write into the stripe at member sector `msect` be a reconstruct-write? `test_no_rcw` is
-- the module parameter `rowmap_test_no_rcw`.
unfoldable pub force_rcw : Bool → Rowmap → ℕ → Bool
force_rcw test_no_rcw rm msect =
    let row = msect / rm.chunk_sectors in
    if test_no_rcw then false else ltb row rm.nrows && not (get rm row == state_w)
