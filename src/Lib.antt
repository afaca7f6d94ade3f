-- ===== src/Lib.antt =====
-- raidkm (md level 71), a Linux md personality for k+m erasure coding. The code is that of km/.
--
-- Dcl: the declustered-parity map of km/raid_km_dcl.h, which the kernel module and mdadm share.
--   Dcl/Geom       struct dcl_geom and its validity.
--   Dcl/Perm       dcl_splitmix64, dcl_gen_base_perm, dcl_seed_for_base.
--   Dcl/Tables     dcl_geom_tables: every base shuffle with its inverse.
--   Dcl/Map        dcl_disk, dcl_lcol, dcl_role, dcl_forward, dcl_inverse.
--   Dcl/Chain      dcl_resolve, dcl_chain_traverses, dcl_chain_root: the chains of assignments of
--                  failed disks to spare columns. The loops run as often as the code lets them.
--   Dcl/Runtime    raidkm_dcl_redirect, raidkm_dcl_chain_root (km/raid_km.c), the walks that the I/O
--                  path runs, in place of those of the core.
--   Dcl/Block      struct rkdcl_sb and rkdcl_verify_blk (km/raid_km-dcl.c), whose result the walks rely on.
--   Dcl/Window     raidkm_dcl_pop_done (km/raid_km-dcl.c); its loop runs at most once around the window.
--   Dcl/Select     raidkm_dcl_geom_for_row, raidkm_dcl_geom_for_chunk (km/raid_km.c), the choice of
--                  the map during a reshape, and the self-test raidkm_dcl_test_reshape.
--
-- Rowmap: the row state map of km/raid_km-rowmap.c, which records for each device row whether it was
-- ever written (U, N, S, W), so that a resync or a recovery need not touch unwritten rows.
--   Rowmap/Pack    rk_rm_byte, rk_rm_get, rk_rm_set on the bytes: four rows to a byte.
--   Rowmap/State   struct raidkm_rowmap, without its locks, and its sizes.
--   Rowmap/Note    raidkm_rowmap_note_write, _note_row_written, _note_discard, _force_rcw.
--   Rowmap/Page    the pages on disk: rk_rm_page_crc, rk_rm_seal, rk_rm_check.
--   Rowmap/Member  the members and rk_rm_write_page.
--   Rowmap/Flush   raidkm_rowmap_flush, in the pieces between which other tasks run, and the test of
--                  raidkm_rowmap_stripe_start.
--   Rowmap/Wait    raidkm_rowmap_wait_row, on fuel: two flushes are always enough.
--   Rowmap/Sync    rk_rm_convert, raidkm_rowmap_sync_skip, _run_end, _pass_end, rk_rm_seed.
--   Rowmap/Load    rk_rm_load, raidkm_rowmap_init from its sizes on, raidkm_rowmap_stop.
--   Rowmap/Safe    the order of the writes as an invariant, with the steps that keep it. A step is a
--                  critical section of the code or one page of a flush; a flush goes page by page
--                  between any other steps, only one at a time, since flush_mutex is held.
--
-- Reshape: the journal of the online reshape, km/raid_km-reshape.c.
--   Reshape/Journal  raidkm_reshape_jwrite, _journal_init, _jread: two slots on every member, and the
--                  record with the highest number wins.
--
-- Layout: the places of sectors on the members of an array that is not declustered.
--   Layout         raid5_compute_sector, raid5_compute_blocknr (km/raid_km.c), of which the branch of
--                  raidkm, and raidkm_reshape_row_layout (km/raid_km-reshape.c).
--
-- Snap: the copy-on-write snapshots, km/raid_km-snap.c and km/raid_km-snapmeta.c. A write of a row that
-- the newest snapshot shares goes to a new row; a record of the journal makes that durable before the
-- maps say so.
--   Snap/Origin    rk_sn_origin and rk_sn_leaf: the origin map.
--   Snap/Rmap      rk_sn_rmap_get, rk_sn_rmap_set: the reverse map, as a list of its entries in order. An
--                  entry is the pair that the source packs into a word.
--   Snap/State     struct raidkm_snap, rk_alloc_row, rk_newest, rk_sn_shared, rk_snap_slot.
--   Snap/Apply     rk_snap_apply. A destroy reports its counts beside the state.
--   Snap/View      what /dev/mdX and the snapshot disks show, by the search of rk_snap_submit_bio, and the
--                  abstract volume that it stands for.
--   Snap/Refine    the sequences of writes and commands, with what the code sees to before each.
--   Snap/Bio, Snap/MapBio, Snap/Discard  raidkm_snap_map_bio and rk_snap_discard. A bio is its kind and
--                  its sectors. That bio_split succeeds, and the state when the lock is taken the second
--                  time, are arguments; submissions and ends of bios are in the result, in their order.
--   Snap/Region    rk_sn_region_pages and the places of the metadata.
--   Snap/Record    rk_sn_op_size, rk_sn_op_put, rk_sn_op_get, byte by byte. That memory is there is an
--                  argument.
--   Snap/Attrs     rk_name_ok, rk_kv_ok, rk_attr_set, rk_attrs_apply. The loop of rk_attr_set is on fuel, the
--                  number of bytes, which is enough.
--   Snap/Command   rk_snap_create, rk_snap_destroy, rk_snap_rename, rk_snap_set, up to what they submit.
--   Snap/Derive    rk_sn_derive, where memory is taken to be there.
--   Snap/Journal   rk_sn_commit_fn for one round, with rk_sn_settle and rk_sn_scrub_ring but not rk_sn_op_finish;
--                  rk_sn_op_valid, rk_sn_replay. The fuel of a
--                  record is the number of its bytes, of which an operation takes one at least; that of the
--                  replay is one more than the slots of the ring.
-- The ring of the journal is its slots, with the sequence number and the body of the record that can be
-- read there; what a failed write leaves in it is an argument, and so is whether the checkpoint of the
-- settling, the clearing of the ring, the flush and the write of the records succeed. Of the snapshots are left out the worker that merges a part of a
-- row, the end of a copy-on-write, what a command does around its operation, the checkpoint, the reading
-- of the header, the table and the maps' pages, and the disks.
--
-- Base has the tests, lists and words that the others share. A u64 wraps where its operations are
-- written `u64 e`; numbers that the code keeps far below their bounds are so by named hypotheses.
--
-- Parameters, being code outside the repository: crc32c, of which only is used that it takes zeroes
-- to 0, crc32, of which nothing is used, sync_page_io, of which is used that a write which succeeds
-- stores its page, that a write leaves the other pages and the flags alone, and that a read returns what
-- is stored, and the I/O to the scratch zones, of which is used the same, but that a read may fail, and
-- that a failed write leaves a slot as it was, with the record, or not valid. A page goes to
-- a member whole: a page that is torn by a crash is not modelled, nor is the byte order of its fields.
--
-- A safe state (Rowmap/Safe) is one in which the members that are in sync agree with the map, as they
-- do after a create or a clean stop. The seed of a new member and its becoming in sync are modelled
-- but are no steps of the invariant. The stripe cache, the row engine, the coding itself, checksums,
-- the passes of a reshape, the logs, and what the module passes on to the md core are not modelled.
pub mod Base
pub mod Dcl
pub mod Rowmap
pub mod Reshape
pub mod Layout
pub mod Snap
