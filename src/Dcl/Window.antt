-- ===== src/Dcl/Window.antt =====
-- km/raid_km-dcl.c, the completion window of a population: `raidkm_dcl_pop_done`. The size of the
-- window is a power of two, for which `& wmask` is `% size`.
pub mod Prefix
use md_kmec.Base.{
  ℕ, zero, suc, ◌+◌, ◌*◌, ◌/◌, ◌%◌, List, Bool, true, false, set, get_or, u64, ltb, leb,
  if◌then◌else◌,
}

-- `reb_win_size`, `reb_win_base`, `reb_win_bits` and `reb_mark`.
pub record Window : Type 0 where
  pub size : ℕ
  pub base : ℕ
  pub bits : List Bool
  pub mark : ℕ

abbrev pub bit : Window → ℕ → Bool
bit w granule = get_or w.bits (granule % w.size) false

-- `while (test_bit(base & wmask, bits))`: at most `left` rounds.
unfoldable pub advance : ℕ → Window → Window
advance zero w = w
advance (suc left) w =
    let rest =
      advance left
        (record w { bits = set w.bits (w.base % w.size) false; base = u64 (w.base + 1) }) in
    if bit w w.base then rest else w

-- `sectors` is RAID5_STRIPE_SECTORS, and each round clears a bit of the window.
unfoldable pub pop_done : ℕ → Window → ℕ → Window
pop_done sectors w sector =
    let granule = sector / sectors in
    let marked = record w { bits = set w.bits (granule % w.size) true } in
    let moved = advance w.size marked in
    if ltb granule w.base
    then w
    else if leb (u64 (w.base + w.size)) granule
    then w
    else record moved { mark = u64 (moved.base * sectors) }
