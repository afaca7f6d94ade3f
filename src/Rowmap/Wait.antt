-- ===== src/Rowmap/Wait.antt =====
-- km/raid_km-rowmap.c, `raidkm_rowmap_wait_row`: the row path flushes until the row's page is on
-- disk.
pub mod Done
use md_kmec.Base.{
  ℕ, zero, suc, ◌+◌, ◌/◌, List, [], ◌∷◌, Bool, true, false, not, ◌&&◌, Option, none, some, u64, leb,
  if◌then◌else◌,
}
use md_kmec.Rowmap.Pack.{page_of}
use md_kmec.Rowmap.State.{Rowmap, Counts, need_of}
use md_kmec.Rowmap.Member.{Io}
use md_kmec.Rowmap.Flush.{Sys, is_past, flush}

module _ (crc32c : List ℕ → ℕ → ℕ → ℕ) (io : Io) (alloc : Bool) where
  -- The loop; none where `fuel` rounds are not enough.
  unfoldable pub wait_loop : ℕ → ℕ → Sys → Option Sys
  wait_loop zero need sys = none
  wait_loop (suc fuel) need sys =
      let counts = record sys.rm.counts { waits = u64 (sys.rm.counts.waits + 1) } in
      let waited = record sys { rm = record sys.rm { counts = counts } } in
      let rest = wait_loop fuel need (flush crc32c io alloc waited).0 in
      if is_past need sys.rm.durable then some sys else rest

  unfoldable pub wait_row : ℕ → Sys → ℕ → Option Sys
  wait_row fuel sys msect =
      let row = msect / sys.rm.chunk_sectors in
      if leb sys.rm.nrows row then some sys else wait_loop fuel (need_of sys.rm (page_of row)) sys
