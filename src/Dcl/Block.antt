-- ===== src/Dcl/Block.antt =====
-- km/raid_km-dcl.c, the metadata block of a declustered array, `struct rkdcl_sb` (km/raid_km_dcl.h),
-- and the check of it, `rkdcl_verify_blk`. The block is kept by its fields, in the byte order of the
-- host.
pub mod Sound
use md_kmec.Base.{
  ℕ, zero, suc, ◌+◌, ◌-◌, ◌*◌, ◌/◌, ◌%◌, ◌^◌, List, [], ◌∷◌, Bool, true, false, not, ◌&&◌, ◌||◌,
  get_or, ltb, leb, ◌==◌, if◌then◌else◌,
}

-- `struct rkdcl_assign`.
pub record Entry : Type 0 where
  pub disk : ℕ
  pub spare : ℕ
  pub state : ℕ
  pub mark : ℕ

-- `struct rkdcl_sb`, with the magic as one number.
pub record Block : Type 0 where
  pub magic : ℕ
  pub version : ℕ
  pub hdr_crc : ℕ
  pub pool_disks : ℕ
  pub group_width : ℕ
  pub parity : ℕ
  pub spare_cols : ℕ
  pub ngroups : ℕ
  pub nbase : ℕ
  pub seed : ℕ
  pub flags : ℕ
  pub gen : ℕ
  pub assign_disk : ℕ
  pub assign_spare : ℕ
  pub assign_state : ℕ
  pub assign_mark : ℕ
  pub nassign : ℕ
  pub assign : List Entry

-- RKDCL_MAGIC, its bytes from the first on.
abbrev pub magic : ℕ
magic = 0x524b44434c4d4431

-- RKDCL_MAX_ASSIGN.
abbrev pub max_assign : ℕ
max_assign = 127

-- The fields of `struct mddev` that the check reads.
pub record Array : Type 0 where
  pub raid_disks : ℕ
  pub new_layout : ℕ
  pub layout : ℕ
  pub reshaping : Bool

-- An entry past those of the list, as the zeroes of the block have it.
abbrev pub no_entry : Entry
no_entry = record { disk = 0; spare = 0; state = 0; mark = 0 }

abbrev pub entry : List Entry → ℕ → Entry
entry table i = get_or table i no_entry

-- RAIDKM_LAYOUT_DCL_G, RAIDKM_LAYOUT_DCL_S and `raidkm_layout_m`.
abbrev pub layout_g : ℕ → ℕ
layout_g l = l / 2 ^ 16 % 256

abbrev pub layout_s : ℕ → ℕ
layout_s l = l / 2 ^ 24 % 128

abbrev pub layout_m : ℕ → ℕ
layout_m l = l % 256

-- The loop over the entries before: is one of them of the disk, or of the spare?
unfoldable pub clashes : List Entry → ℕ → ℕ → ℕ → ℕ → Bool
clashes table x j zero k = false
clashes table x j (suc left) k =
    let e = entry table k in
    let rest = clashes table x j left (k + 1) in
    if (e.disk == x) || (e.spare == j) then true else rest

-- A pass is in flight: POPULATING or COPYING.
abbrev pub in_flight : ℕ → Bool
in_flight state = (state == 1) || (state == 3)

-- The loop over the table of a block of version 3, with the passes in flight so far.
unfoldable pub table_ok : Block → ℕ → ℕ → ℕ → Bool
table_ok blk zero i npop = true
table_ok blk (suc left) i npop =
    let e = entry blk.assign i in
    let npop' = if in_flight e.state then npop + 1 else npop in
    let rest = table_ok blk left (i + 1) npop' in
    if not (e.state == 1) && not (e.state == 2) && not (e.state == 3)
    then false
    else if in_flight e.state && ltb 1 npop'
    then false
    else if leb blk.pool_disks e.disk || leb blk.spare_cols e.spare
    then false
    else if clashes blk.assign e.disk e.spare i 0
    then false
    else rest

-- The geometry of the block is that of a layout word.
abbrev pub fits_layout : Block → ℕ → Bool
fits_layout blk l =
    blk.group_width == layout_g l && blk.parity == layout_m l && blk.spare_cols == layout_s l

-- The check of the one assignment of a block of version 2.
unfoldable pub legacy_ok : Block → Bool
legacy_ok blk =
    if ltb 3 blk.assign_state
    then false
    else if not (blk.assign_state == 0)
        && (leb blk.pool_disks blk.assign_disk || leb blk.spare_cols blk.assign_spare)
    then false
    else true

-- `crc32` is the checksum of the bytes of a block.
module _ (crc32 : Block → ℕ) where
  -- `rkdcl_verify_blk`; true is 0.
  unfoldable pub verify_blk : Array → Block → Bool
  verify_blk mddev blk =
      if not (blk.magic == magic) || ltb blk.version 1 || ltb 3 blk.version
      then false
      else if not (crc32 (record blk { hdr_crc = 0 }) == blk.hdr_crc)
      then false
      else if not (blk.pool_disks == mddev.raid_disks) && not mddev.reshaping
      then false
      else if not (fits_layout blk mddev.new_layout)
          && not (mddev.reshaping && fits_layout blk mddev.layout)
      then false
      else if (blk.nbase == 0) || ltb 64 blk.nbase
      then false
      else if blk.version == 2 && not (legacy_ok blk)
      then false
      else if not (leb 3 blk.version)
      then true
      else if ltb blk.spare_cols blk.nassign || ltb max_assign blk.nassign
      then false
      else table_ok blk blk.nassign 0 0
