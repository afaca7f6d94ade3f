-- ===== src/Snap/Bio.antt =====
-- km/raid_km-snap.c: where a bio of the origin goes. `raidkm_snap_map_bio` sends it to its physical
-- row, or takes a write of a shared row for a copy-on-write; `rk_snap_discard` does it for discards.
-- A bio is its range and its kind. The set of
-- copy-on-writes in flight is the list of the slots, a free one `none`. What the functions hand to
-- other parts of the kernel is the list of effects. A bio that can be split or not is an argument,
-- since the memory for it comes from the kernel.
use md_kmec.Base.{
  ℕ, ◌+◌, ◌-◌, ◌*◌, Bool, true, false, Option, none, some, List, [], ◌∷◌, ◌++◌, ◌==◌, if◌then◌else◌,
  set, get_or,
}
use md_kmec.Snap.State.{Sn}

pub data Kind : Type 0 where
  read_op write_op discard_op : Kind

pub record Bio : Type 0 where
  pub kind : Kind
  pub sector : ℕ
  pub sectors : ℕ
  pub remapped : Bool

-- `blk_status_t`: those that the code sets.
pub data Status : Type 0 where
  ok io_error no_space no_resource : Status

-- `struct rk_snap_cow`. The redirect is known once the new row is.
pub record Cow : Type 0 where
  pub row : ℕ
  pub bio : Bio
  pub waiters : List Bio
  pub moves : Option (ℕ × ℕ)

-- The part of `struct raidkm_snap` that the I/O paths keep beside the maps.
pub record Io : Type 0 where
  pub sn : Sn
  pub cow : List (Option Cow)
  pub overflow : List Bio
  pub hold : Bool
  pub broken : Bool
  pub cow_fail : ℕ
  pub cow_nospc : ℕ
  pub cow_whole : ℕ
  pub cow_partial : ℕ
  pub disc_rows : ℕ
  pub disc_drop : ℕ

pub data Effect : Type 0 where
  ended : Status → Bio → Effect
  resubmit : Bio → Effect
  copy_row : ℕ → Effect

-- RK_SNAP_GO with the bio as it is now, RK_SNAP_DONE.
pub data Outcome : Type 0 where
  go : Bio → Outcome
  done : Outcome

pub record Result : Type 0 where
  pub io : Io
  pub outcome : Outcome
  pub effects : List Effect

abbrev pub end_of : Bio → ℕ
end_of b = b.sector + b.sectors

abbrev pub is_write : Kind → Bool
is_write read_op = false
is_write write_op = true
is_write discard_op = true

-- The first sectors of a bio, and the rest.
abbrev pub front : Bio → ℕ → Bio
front b n = record b { sectors = n }

abbrev pub back : Bio → ℕ → Bio
back b n = record b { sector = b.sector + n; sectors = b.sectors - n }

-- `rk_busy_find`: the slot of the copy-on-write of a row, from slot `i` on.
unfoldable pub busy_slot : List (Option Cow) → ℕ → ℕ → Option ℕ
busy_slot [] row i = none
busy_slot (none ∷ r) row i = busy_slot r row (i + 1)
busy_slot (some c ∷ r) row i =
    let rest = busy_slot r row (i + 1) in if c.row == row then some i else rest

abbrev pub busy_find : Io → ℕ → Option ℕ
busy_find io row = busy_slot io.cow row 0

-- `find_first_zero_bit` on `cow_busy`.
unfoldable pub free_slot : List (Option Cow) → ℕ → Option ℕ
free_slot [] i = none
free_slot (none ∷ r) i = some i
free_slot (some c ∷ r) i = free_slot r (i + 1)

abbrev pub wait_on : Option Cow → Bio → Option Cow
wait_on none b = none
wait_on (some c) b = some (record c { waiters = c.waiters ++ (b ∷ []) })

-- The bio waits for the copy-on-write of a slot.
unfoldable pub add_waiter : ℕ → Bio → Io → Io
add_waiter i b io = record io { cow = set io.cow i (wait_on (get_or io.cow i none) b) }

abbrev pub remap : ℕ → Bio → ℕ → ℕ → Bio
remap rs b phys off = record b { sector = phys * rs + off; remapped = true }

abbrev pub finished : Io → Status → Bio → Result
finished io st b = record { io = io; outcome = done; effects = ended st b ∷ [] }

abbrev pub sent : Io → Bio → Result
sent io b = record { io = io; outcome = go b; effects = [] }

abbrev pub kept : Io → Result
kept io = record { io = io; outcome = done; effects = [] }
