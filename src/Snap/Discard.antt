-- ===== src/Snap/Discard.antt =====
-- `rk_snap_discard` of km/raid_km-snap.c, and `raidkm_snap_map_bio` as a whole.
pub mod Safe
use md_kmec.Base.{
  ℕ, zero, suc, ◌+◌, ◌-◌, ◌*◌, ◌/◌, ◌%◌, ◌^◌, Bool, true, false, not, ◌&&◌, ◌||◌, Option, none,
  some, List, [], ◌∷◌, ◌++◌, ltb, leb, ◌==◌, if◌then◌else◌,
}
use md_kmec.Snap.Origin.{origin}
use md_kmec.Snap.State.{Sn, shared}
use md_kmec.Snap.Bio.{
  Kind, read_op, write_op, discard_op, Bio, ok, Io, Effect, ended, resubmit, go, done, Result,
  end_of, front, back, busy_find, add_waiter, finished, kept,
}
use md_kmec.Snap.MapBio.{map_rw, after_split}

abbrev pub min : ℕ → ℕ → ℕ
min a b = if ltb b a then b else a

abbrev pub is_busy : Io → ℕ → Bool
is_busy io row = elim (busy_find io row) [ none ↦ false | some _ ↦ true ]

abbrev pub same_bool : Bool → Bool → Bool
same_bool true b = b
same_bool false b = not b

-- The row does not continue the run: a copy-on-write is in flight, it is shared where the first is
-- not or the other way, or its physical row is not the next one.
abbrev pub breaks : Io → ℕ → Bool → ℕ → ℕ → Bool
breaks io row sh phys n =
    is_busy io (row + n)
    || not (same_bool (shared io.sn (row + n)) sh)
    || (not sh && not (origin io.sn.odir (row + n) == phys + n))

-- The rows of the run from `row` on: `n` are in it, `k` more may be.
unfoldable pub run_rows : Io → ℕ → Bool → ℕ → ℕ → ℕ → ℕ
run_rows io row sh phys zero n = n
run_rows io row sh phys (suc k) n =
    let rest = run_rows io row sh phys k (n + 1) in if breaks io row sh phys n then n else rest

-- The end of a discard of `n` rows, shared or not.
unfoldable pub drop_or_pass : Io → Bool → ℕ → ℕ → Bio → Result
drop_or_pass io true phys n b = finished (record io { disc_drop = io.disc_drop + n }) ok b
drop_or_pass io false phys n b = record {
  io = record io { disc_rows = io.disc_rows + n };
  outcome = go (record b { sector = phys * io.sn.row_sectors; remapped = true });
  effects = [];
}

-- What is past the run goes back to the queue; a discard that cannot be split is done.
unfoldable pub cut_run : Bool → Io → ℕ → ℕ → Bio → (Bio → Result) → Result
cut_run can_split io row n b next =
    let stop = (row + n) * io.sn.row_sectors in
    let len = stop - b.sector in
    if ltb stop (end_of b)
    then if can_split then after_split (back b len) (next (front b len)) else finished io ok b
    else next b

abbrev pub wait_or_again : Io → Bio → Option ℕ → Result
wait_or_again io b none = record { io = io; outcome = done; effects = resubmit b ∷ [] }
wait_or_again io b (some i) = kept (add_waiter i b io)

-- The first row has a copy-on-write in flight. `later` is the state when the lock is taken again.
unfoldable pub discard_busy : Bool → Io → Io → ℕ → Bio → ℕ → Result
unfolding cut_run add_waiter
discard_busy can_split io later row b i =
    if ltb ((row + 1) * io.sn.row_sectors) (end_of b)
    then cut_run can_split later row 1 b (λ f. wait_or_again later f (busy_find later row))
    else kept (add_waiter i b io)

unfoldable pub discard_idle : Bool → Io → ℕ → ℕ → Bio → Result
unfolding cut_run run_rows drop_or_pass shared
discard_idle can_split io row cap b =
    let sh = shared io.sn row in
    let phys = origin io.sn.odir row in
    let n = run_rows io row sh phys (cap - 1) 1 in
    cut_run can_split io row n b (drop_or_pass io sh phys n)

abbrev pub discard_from : Bool → Io → Io → ℕ → ℕ → Bio → Option ℕ → Result
discard_from can_split io later row cap b none = discard_idle can_split io row cap b
discard_from can_split io later row cap b (some i) = discard_busy can_split io later row b i

-- `UINT_MAX >> 9`.
abbrev pub max_sectors : ℕ
max_sectors = 8388607

-- From the first whole row on.
abbrev pub discard_rows : Bool → Io → Io → ℕ → ℕ → Bio → Result
discard_rows can_split io later row row_end b =
    let cap = min (row_end - row) (min 512 (max_sectors / io.sn.row_sectors)) in
    discard_from can_split io later row cap b (busy_find io row)

abbrev pub with_effect : Effect → Result → Result
with_effect e r = record r { effects = e ∷ r.effects }

-- `rk_snap_discard`. The part of a row in front is ended at once, as there is nothing to do for it.
unfoldable pub discard : Bool → Bool → Io → Io → Bio → Result
unfolding discard_idle discard_busy
discard can_front can_split io later b =
    let rs = io.sn.row_sectors in
    let row = (b.sector + rs - 1) / rs in
    let row_end = min (end_of b / rs) io.sn.origin_rows in
    let lead = row * rs - b.sector in
    if leb row_end row
    then finished io ok b
    else if ltb b.sector (row * rs)
    then if can_front
      then with_effect (ended ok (front b lead))
          (discard_rows can_split io later row row_end (back b lead))
      else finished io ok b
    else discard_rows can_split io later row row_end b

abbrev pub by_kind : Kind → Result → Result → Result
by_kind read_op rw dis = rw
by_kind write_op rw dis = rw
by_kind discard_op rw dis = dis

-- `raidkm_snap_map_bio`.
unfoldable pub map_bio : Bool → Bool → Io → Io → Bio → Result
unfolding map_rw discard
map_bio can_front can_split io later b =
    if b.remapped || (b.sectors == 0)
    then record { io = io; outcome = go b; effects = [] }
    else by_kind b.kind (map_rw can_split io b) (discard can_front can_split io later b)
