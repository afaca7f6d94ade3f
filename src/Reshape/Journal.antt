-- ===== src/Reshape/Journal.antt =====
-- km/raid_km-reshape.c, the journal: `raidkm_rj_csum`, `raidkm_reshape_jwrite`,
-- `raidkm_reshape_journal_init` and `raidkm_reshape_jread`. A slot is kept by the fields of its
-- record, in the byte order of the host; the I/O to a member's scratch zone and the checksum of a
-- record's bytes are parameters.
pub mod Newest
pub mod Write
pub mod Init
use md_kmec.Base.{
  ℕ, zero, suc, ◌+◌, ◌%◌, ◌≡◌, ◌≢◌, ◌⊎◌, List, [], ◌∷◌, Bool, true, false, not, ◌&&◌, ◌||◌, Option,
  none, some, ◌==◌, leb, u64, if◌then◌else◌,
}

-- `struct raidkm_reshape_journal`.
pub record Journal : Type 0 where
  pub magic : ℕ
  pub version : ℕ
  pub seq : ℕ
  pub band_start_chunk : ℕ
  pub band_chunks : ℕ
  pub phase : ℕ
  pub old_m : ℕ
  pub new_m : ℕ
  pub old_raid_disks : ℕ
  pub new_raid_disks : ℕ
  pub chunk_sectors : ℕ
  pub scratch_rows : ℕ
  pub reshape_position : ℕ
  pub data_csum : ℕ
  pub kind : ℕ
  pub dcl_g : ℕ
  pub dcl_s : ℕ
  pub dcl_nbase : ℕ
  pub dcl_old_seed : ℕ
  pub dcl_new_seed : ℕ
  pub frontier_row : ℕ
  pub dcl_old_g : ℕ
  pub dcl_old_s : ℕ
  pub hdr_csum : ℕ

-- `struct raidkm_reshape_ctx`.
pub record Ctx : Type 0 where
  pub jseq : ℕ
  pub old_m : ℕ
  pub new_m : ℕ
  pub old_raid_disks : ℕ
  pub new_raid_disks : ℕ
  pub chunk_sectors : ℕ
  pub scratch_rows : ℕ
  pub kind : ℕ
  pub dcl_g : ℕ
  pub dcl_s : ℕ
  pub dcl_nbase : ℕ
  pub dcl_old_g : ℕ
  pub dcl_old_s : ℕ
  pub dcl_old_seed : ℕ
  pub dcl_new_seed : ℕ
  pub frontier_row : ℕ

-- The arguments of a record: the phase, the band, its checksum and the position.
pub record Band : Type 0 where
  pub phase : ℕ
  pub start_chunk : ℕ
  pub chunks : ℕ
  pub csum : ℕ
  pub position : ℕ

abbrev pub rj_magic : ℕ
rj_magic = 0x4a524b52

abbrev pub rj_version : ℕ
rj_version = 2

-- RAIDKM_PH_IDLE, in the records that start a journal.
abbrev pub idle : Band
idle = record { phase = 0; start_chunk = 0; chunks = 0; csum = 0; position = 0 }

-- A member, by the number of its device, with the two journal slots of its scratch zone.
pub record Disk : Type 0 where
  pub dev : ℕ
  pub faulty : Bool
  pub in_sync : Bool
  pub slots : ℕ → Journal

-- `conf->disks[].rdev`.
abbrev pub Disks : Type 0
Disks = List (Option Disk)

-- `raidkm_scratch_io` on a slot.
pub record ScratchIo : Type 0 where
  pub write : Disk → ℕ → Journal → Bool × Disk
  pub read : Disk → ℕ → Option Journal

-- 0, -EIO and -ENOMEM.
pub data Outcome : Type 0 where
  done eio enomem : Outcome

-- `if (err) return err;`: the result as it is on an error, or the rest.
unfoldable pub unless_error :
    Outcome → Disks × (Ctx × Outcome) → Disks × (Ctx × Outcome) → Disks × (Ctx × Outcome)
unless_error done wrote rest = rest
unless_error eio wrote rest = wrote
unless_error enomem wrote rest = wrote

-- `crc32c` is the checksum of the bytes of a record.
module _ (crc32c : Journal → ℕ) where
  unfoldable pub rj_csum : Journal → ℕ
  rj_csum rj = crc32c (record rj { hdr_csum = 0 })

  -- The record that `raidkm_reshape_jwrite` writes.
  unfoldable pub journal_record : Ctx → Band → Journal
  journal_record ctx band =
      let rj : Journal = record {
        magic = rj_magic;
        version = rj_version;
        seq = ctx.jseq;
        band_start_chunk = band.start_chunk;
        band_chunks = band.chunks;
        phase = band.phase;
        old_m = ctx.old_m;
        new_m = ctx.new_m;
        old_raid_disks = ctx.old_raid_disks;
        new_raid_disks = ctx.new_raid_disks;
        chunk_sectors = ctx.chunk_sectors;
        scratch_rows = ctx.scratch_rows;
        reshape_position = band.position;
        data_csum = band.csum;
        kind = ctx.kind;
        dcl_g = ctx.dcl_g;
        dcl_s = ctx.dcl_s;
        dcl_nbase = ctx.dcl_nbase;
        dcl_old_seed = ctx.dcl_old_seed;
        dcl_new_seed = ctx.dcl_new_seed;
        frontier_row = ctx.frontier_row;
        dcl_old_g = ctx.dcl_old_g;
        dcl_old_s = ctx.dcl_old_s;
        hdr_csum = 0;
      } in
      record rj { hdr_csum = rj_csum rj }

  -- The three tests of `raidkm_reshape_jread`.
  unfoldable pub is_valid : Journal → Bool
  is_valid rj = rj.magic == rj_magic && rj.version == rj_version && rj.hdr_csum == rj_csum rj

  -- What a record that was read does to the best one so far, whose `seq` is `best_seq`.
  unfoldable pub newer : Option Journal → Journal → Option Journal
  newer none rj = if is_valid rj then some rj else none
  newer (some best) rj = if is_valid rj && leb best.seq rj.seq then some rj else some best

  -- A slot that could not be read is passed over.
  unfoldable pub taken : Option Journal → Option Journal → Option Journal
  taken best none = best
  taken best (some rj) = newer best rj

  module _ (io : ScratchIo) where
    unfoldable pub read_slot : Disk → ℕ → Option Journal → Option Journal
    read_slot d slot best = taken best (io.read d slot)

    -- The loops over the members and their two slots.
    unfoldable pub read_disks : Disks → Option Journal → Option Journal
    read_disks [] best = best
    read_disks (none ∷ disks) best = read_disks disks best
    read_disks (some d ∷ disks) best =
        read_disks disks (if d.faulty then best else read_slot d 1 (read_slot d 0 best))

    -- `raidkm_reshape_jread`; none is -ENOENT.
    unfoldable pub jread : Disks → Option Journal
    jread disks = read_disks disks none

    -- The loop over the members, with the number that took the record.
    unfoldable pub write_disks : Journal → ℕ → Disks → Disks × ℕ
    write_disks rj slot [] = ([], 0)
    write_disks rj slot (none ∷ disks) =
        let (rest, n) = write_disks rj slot disks in (none ∷ rest, n)
    write_disks rj slot (some d ∷ disks) =
        let (rest, n) = write_disks rj slot disks in
        let (took, d') = io.write d slot rj in
        if d.faulty || not d.in_sync
        then (some d ∷ rest, n)
        else (some d' ∷ rest, if took then 1 + n else n)

    -- `alloc` says that there was a page.
    unfoldable pub jwrite : Bool → Disks → Ctx → Band → Disks × (Ctx × Outcome)
    jwrite alloc disks ctx band =
        let (disks', n) = write_disks (journal_record ctx band) (ctx.jseq % 2) disks in
        if not alloc
        then (disks, (ctx, enomem))
        else if n == 0
        then (disks', (ctx, eio))
        else (disks', (record ctx { jseq = u64 (ctx.jseq + 1) }, done))

    -- The loop over the slots that are left.
    unfoldable pub init_slots : Bool → ℕ → Disks → Ctx → Disks × (Ctx × Outcome)
    init_slots alloc zero disks ctx = (disks, (ctx, done))
    init_slots alloc (suc left) disks ctx =
        let wrote = jwrite alloc disks ctx idle in
        unless_error wrote.1.1 wrote (init_slots alloc left wrote.0 wrote.1.0)

    unfoldable pub journal_init : Bool → Disks → Ctx → Disks × (Ctx × Outcome)
    journal_init alloc disks ctx = init_slots alloc 2 disks ctx
