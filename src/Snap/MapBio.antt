-- ===== src/Snap/MapBio.antt =====
-- Reads and writes of the origin in `raidkm_snap_map_bio` of km/raid_km-snap.c.
pub mod Safe
use md_kmec.Base.{
  ℕ, zero, suc, ◌+◌, ◌-◌, ◌*◌, ◌/◌, ◌%◌, ◌^◌, Bool, true, false, not, ◌&&◌, ◌||◌, Option, none,
  some, List, [], ◌∷◌, ◌++◌, ltb, leb, ◌==◌, if◌then◌else◌, set, get_or,
}
use md_kmec.Snap.Origin.{origin}
use md_kmec.Snap.State.{Sn, shared, alloc_row}
use md_kmec.Snap.Bio.{
  Kind, read_op, write_op, discard_op, Bio, Status, ok, io_error, no_space, no_resource, Cow, Io,
  Effect, ended, resubmit, copy_row, Outcome, go, done, Result, end_of, is_write, front, back,
  busy_find, free_slot, add_waiter, remap, finished, sent, kept,
}

abbrev pub at_origin : Io → ℕ → Bio → Result
at_origin io row b =
    let rs = io.sn.row_sectors in sent io (remap rs b (origin io.sn.odir row) (b.sector - row * rs))

abbrev busy_with : ℕ → Bio → Option (ℕ × ℕ) → Option Cow
busy_with row b moves = some (record { row = row; bio = b; waiters = []; moves = moves })

-- A write of the whole row goes on to the new row; its end is the copy-on-write's.
unfoldable pub start_whole : Io → ℕ → Bio → ℕ → Option ℕ × Sn → Result
start_whole io row b i (none, sn) = finished (record io { cow_nospc = io.cow_nospc + 1 }) no_space b
start_whole io row b i (some new_phys, sn) =
    let rs = io.sn.row_sectors in
    let c = busy_with row b (some (origin io.sn.odir row, new_phys)) in
    sent (record io { sn = sn; cow = set io.cow i c; cow_whole = io.cow_whole + 1 })
      (remap rs b new_phys (b.sector - row * rs))

-- A write of a part of the row is left to the worker.
unfoldable pub start_partial : Io → ℕ → Bio → ℕ → Result
start_partial io row b i = record {
  io = record io { cow = set io.cow i (busy_with row b none) };
  outcome = done;
  effects = copy_row i ∷ [];
}

abbrev pub is_whole : Io → ℕ → Bio → Bool
is_whole io row b = (b.sector - row * io.sn.row_sectors == 0) && (b.sectors == io.sn.row_sectors)

-- A write of a shared row, with the copy-on-write slot that is free.
unfoldable pub start_cow : Io → ℕ → Bio → Option ℕ → Result
unfolding start_whole start_partial alloc_row
start_cow io row b none = kept (record io { overflow = io.overflow ++ (b ∷ []) })
start_cow io row b (some i) =
    if io.hold
    then kept (record io { overflow = io.overflow ++ (b ∷ []) })
    else if is_whole io row b
    then start_whole io row b i (alloc_row io.sn)
    else start_partial io row b i

unfoldable pub write_shared : Io → ℕ → Bio → Result
unfolding start_cow free_slot
write_shared io row b =
    if io.broken
    then finished (record io { cow_fail = io.cow_fail + 1 }) io_error b
    else start_cow io row b (free_slot io.cow 0)

-- A bio within a row, where it is not known whether a copy-on-write of the row is in flight.
abbrev pub unless_busy : Io → Bio → Option ℕ → Result → Result
unless_busy io b none r = r
unless_busy io b (some i) r = kept (add_waiter i b io)

-- A bio within a row of the origin.
unfoldable pub map_in_row : Io → ℕ → Bio → Result
unfolding write_shared shared add_waiter
map_in_row io row b =
    if not (is_write b.kind) || (io.sn.nsnaps == 0)
    then at_origin io row b
    else unless_busy io b (busy_find io row)
        (if shared io.sn row then write_shared io row b else at_origin io row b)

abbrev pub after_split : Bio → Result → Result
after_split rest r = record r { effects = resubmit rest ∷ r.effects }

-- A write or a read: what goes past the row goes back to the queue.
unfoldable pub map_rw : Bool → Io → Bio → Result
unfolding map_in_row
map_rw can_split io b =
    let rs = io.sn.row_sectors in
    let row = b.sector / rs in
    let n = (row + 1) * rs - b.sector in
    if leb io.sn.origin_rows row
    then finished io io_error b
    else if ltb ((row + 1) * rs) (end_of b)
    then if can_split
      then after_split (back b n) (map_in_row io row (front b n))
      else finished io no_resource b
    else map_in_row io row b
