-- ===== src/Layout.antt =====
-- The layouts of an array that is not declustered: `raid5_compute_sector` and
-- `raid5_compute_blocknr` of km/raid_km.c on the branch of raidkm, and
-- `raidkm_reshape_row_layout` of km/raid_km-reshape.c.
pub mod RoundTrip
pub mod Row
mod Tests
use md_kmec.Base.{
  ℕ, zero, suc, ◌+◌, ◌-◌, ◌*◌, ◌/◌, ◌%◌, ◌^◌, ◌≤◌, ◌<◌, List, [], ◌∷◌, Bool, true, false, not, ◌&&◌,
  ◌||◌, ◌==◌, ltb, u64, if◌then◌else◌,
}

-- The fields of `struct r5conf` of one geometry: the members, the parity members, the sectors of a
-- chunk, and whether parity rotates.
pub record Shape : Type 0 where
  pub raid_disks : ℕ
  pub m : ℕ
  pub sectors_per_chunk : ℕ
  pub rotating : Bool

-- There is a data member and a parity member, the sizes are those of an `int`, and a chunk has a
-- sector.
pub record IsShape (c : Shape) : Type 0 where
  pub some_parity : 0 < c.m
  pub some_data : c.m < c.raid_disks
  pub int_disks : c.raid_disks < 2 ^ 30
  pub some_sectors : 0 < c.sectors_per_chunk

abbrev pub data_disks : Shape → ℕ
data_disks c = c.raid_disks - c.m

-- What `raid5_compute_sector` returns and stores.
pub record Place : Type 0 where
  pub sector : ℕ
  pub dd_idx : ℕ
  pub pd_idx : ℕ
  pub qd_idx : ℕ

-- The first parity slot of a stripe.
abbrev pub first_parity : Shape → ℕ → ℕ
first_parity c stripe =
    if c.rotating then c.raid_disks - 1 - stripe % c.raid_disks else data_disks c

unfoldable pub compute_sector : Shape → ℕ → Place
compute_sector c r_sector =
    let chunk_offset = r_sector % c.sectors_per_chunk in
    let chunk_number = r_sector / c.sectors_per_chunk in
    let stripe = chunk_number / data_disks c in
    let dd_idx = chunk_number % data_disks c in
    let pd_idx = first_parity c stripe in
    record {
      sector = u64 (stripe * c.sectors_per_chunk + chunk_offset);
      dd_idx = (pd_idx + c.m + dd_idx) % c.raid_disks;
      pd_idx = pd_idx;
      qd_idx = (pd_idx + c.m - 1) % c.raid_disks;
    }

-- `raid5_compute_blocknr` of slot `i` of a stripe head, with its check of the result.
unfoldable pub compute_blocknr : Shape → Place → ℕ → ℕ
compute_blocknr c sh i =
    let chunk_offset = sh.sector % c.sectors_per_chunk in
    let stripe = sh.sector / c.sectors_per_chunk in
    let rel = (i + c.raid_disks - sh.pd_idx) % c.raid_disks in
    let chunk_number = u64 (stripe * data_disks c + (rel - c.m)) in
    let r_sector = u64 (chunk_number * c.sectors_per_chunk + chunk_offset) in
    let sh2 = compute_sector c r_sector in
    if i == sh.pd_idx
    then 0
    else if ltb rel c.m
    then 0
    else if not (sh2.sector == sh.sector)
        || not (sh2.dd_idx == i)
        || not (sh2.pd_idx == sh.pd_idx)
        || not (sh2.qd_idx == sh.qd_idx)
    then 0
    else r_sector

-- The slots (first + i) % disks for the next `left` values of `i`: both loops of
-- `raidkm_reshape_row_layout`.
unfoldable pub slots_from : ℕ → ℕ → ℕ → ℕ → List ℕ
slots_from raid_disks first zero i = []
slots_from raid_disks first (suc left) i =
    (first + i) % raid_disks ∷ slots_from raid_disks first left (i + 1)

-- The slots of a row's data, and those of its parity.
unfoldable pub row_layout : ℕ → ℕ → Bool → ℕ → List ℕ × List ℕ
row_layout raid_disks m rotating row =
    let k = raid_disks - m in
    let pd_idx = if rotating then raid_disks - 1 - row % raid_disks else k in
    (slots_from raid_disks (pd_idx + m) k 0, slots_from raid_disks pd_idx m 0)
