-- ===== src/Dcl/WalkTests.antt =====
-- Runs of the walks of the I/O path and of the choice of the map, and the theorems at them.
use md_kmec.Base.{ℕ, ◌*◌, ◌≡◌, refl, List, [], ◌∷◌, true, false, some, arith}
use md_kmec.Dcl.Geom.{Geom, IsGeom}
use md_kmec.Dcl.Map.{disk, lcol, forward}
use md_kmec.Dcl.Chain.{resolve, chain_root}
use md_kmec.Dcl.Runtime.{
  Reb, populated, populating, find_reb, find_reb_spare, to_spare, redirect_from, redirect,
  runtime_root_from, runtime_root,
}
use md_kmec.Dcl.Runtime.Core.{
  assigns, marks, none_copying, is_copying, redirect-resolve, runtime_root-chain_root,
}
use md_kmec.Dcl.Block.{Block, Array, magic, clashes, table_ok, legacy_ok, verify_blk}
use md_kmec.Dcl.Block.Sound.{table_assigns, verify_blk-AreAssigned}
use md_kmec.Dcl.Chain.Walk.{AreAssigned}
use md_kmec.Dcl.Select.{
  passed, geom_for_row, geom_for_chunk, chosen_geom, test_reshape, test_from, choose_row,
  choose_chunk, backward,
}
use md_kmec.Dcl.Select.Agree.{geom_for_row-geom_for_chunk, test_reshape-passed}

-- Five disks with two base shuffles.
abbrev five : Geom
five = record {
  n = 5;
  g = 3;
  m = 2;
  k = 1;
  s = 2;
  ngroups = 1;
  nbase = 2;
  seed = 0x1234;
  base = 3 ∷ 2 ∷ 0 ∷ 1 ∷ 4 ∷ 4 ∷ 0 ∷ 2 ∷ 1 ∷ 3 ∷ [];
  ibase = 2 ∷ 3 ∷ 1 ∷ 0 ∷ 4 ∷ 1 ∷ 3 ∷ 2 ∷ 4 ∷ 0 ∷ [];
}

-- The pool after it has grown by a group, with tables that the choice does not read.
abbrev grown : Geom
grown = record five { n = 8; ngroups = 2 }

five-IsGeom : IsGeom five
five-IsGeom = omega arith

grown-IsGeom : IsGeom grown
grown-IsGeom = omega arith

abbrev entries : List Reb
entries =
    record { disk = 3; spare = 0; state = populated }
    ∷ record { disk = 1; spare = 1; state = populating }
    ∷ []

entries-quiet : none_copying entries ≡ true
unfolding none_copying is_copying
entries-quiet = refl

walks_run :
    (redirect five entries 128 0 0 true (disk five 0 0) ≡ 4)
    × (redirect five entries 128 0 0 false (disk five 0 0) ≡ 1)
    × (runtime_root five entries 0 4 ≡ some 0)
    × (test_reshape five grown 1 3 ≡ passed)
unfolding redirect redirect_from to_spare find_reb runtime_root runtime_root_from find_reb_spare
    disk lcol test_reshape test_from geom_for_chunk geom_for_row choose_row choose_chunk backward
    forward
walks_run = (refl, refl, refl, refl)

redirect-resolve_example :
    redirect five entries 128 (1 * 128) 0 false (disk five 0 0)
    ≡ (resolve five (assigns entries) (marks false 1 entries) 0 0).disk
redirect-resolve_example =
    redirect-resolve five entries false 1 128 0 (omega arith) (omega arith) entries-quiet 0

runtime_root-chain_root_example :
    runtime_root five entries 0 4 ≡ chain_root five (assigns entries) 0 4
runtime_root-chain_root_example = runtime_root-chain_root five entries 0 4

geom_for_row-geom_for_chunk_example :
    geom_for_row
      (record { dcl = grown; prev = some five; frontier = 1 })
      (forward
        (chosen_geom five grown
          (geom_for_chunk (record { dcl = grown; prev = some five; frontier = 1 }) 3))
        3).row
    ≡ geom_for_chunk (record { dcl = grown; prev = some five; frontier = 1 }) 3
geom_for_row-geom_for_chunk_example = geom_for_row-geom_for_chunk five-IsGeom grown-IsGeom 1 3

test_reshape-passed_example : test_reshape grown five 2 4 ≡ passed
test_reshape-passed_example = test_reshape-passed grown-IsGeom five-IsGeom 2 4

-- A block of version 3 with the two entries.
abbrev block : Block
block = record {
  magic = magic;
  version = 3;
  hdr_crc = 0;
  pool_disks = 5;
  group_width = 3;
  parity = 2;
  spare_cols = 2;
  ngroups = 1;
  nbase = 2;
  seed = 0x1234;
  flags = 0;
  gen = 9;
  assign_disk = 3;
  assign_spare = 0;
  assign_state = 2;
  assign_mark = 512;
  nassign = 2;
  assign =
      record { disk = 3; spare = 0; state = 2; mark = 512 }
      ∷ record { disk = 1; spare = 1; state = 1; mark = 128 }
      ∷ [];
}

abbrev array : Array
array = record { raid_disks = 5; new_layout = 0x2030402; layout = 0x2030402; reshaping = false }

abbrev no_crc : Block → ℕ
no_crc blk = 0

block-verified : verify_blk no_crc array block ≡ true
unfolding verify_blk table_ok clashes legacy_ok
block-verified = refl

-- The same disk twice is refused, and so are two passes in flight.
block_refusals :
    (verify_blk no_crc array (record block {
      assign =
          record { disk = 3; spare = 0; state = 2; mark = 0 }
          ∷ record { disk = 3; spare = 1; state = 2; mark = 0 }
          ∷ [];
    })
      ≡ false)
    × (verify_blk no_crc array (record block {
      assign =
          record { disk = 3; spare = 0; state = 3; mark = 0 }
          ∷ record { disk = 1; spare = 1; state = 1; mark = 0 }
          ∷ [];
    })
        ≡ false)
unfolding verify_blk table_ok clashes legacy_ok
block_refusals = (refl, refl)

verify_blk-AreAssigned_example : AreAssigned five (table_assigns block.assign 2 0)
verify_blk-AreAssigned_example =
    verify_blk-AreAssigned no_crc array block five block-verified refl refl refl
