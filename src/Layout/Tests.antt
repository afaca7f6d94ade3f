-- ===== src/Layout/Tests.antt =====
-- Runs of the layouts on six members, two of them parity, and the theorems there.
use md_kmec.Base.{◌+◌, ◌%◌, ◌/◌, ◌≡◌, refl, [], ◌∷◌, true, arith, at}
use md_kmec.Layout.{Shape, IsShape, compute_sector, compute_blocknr, row_layout, slots_from}
use md_kmec.Layout.RoundTrip.{compute_blocknr-compute_sector, compute_blocknr-parity}
use md_kmec.Layout.Row.{IsOneToOne, row_layout-IsOneToOne, row_layout-compute_sector}

abbrev shape : Shape
shape = record { raid_disks = 6; m = 2; sectors_per_chunk = 8; rotating = true }

shape-IsShape : IsShape shape
shape-IsShape = omega arith

layout_run :
    (compute_sector shape 75 ≡ record { sector = 19; dd_idx = 0; pd_idx = 3; qd_idx = 4 })
    × (compute_blocknr shape (compute_sector shape 75) 0 ≡ 75)
    × (compute_blocknr shape (compute_sector shape 75) 4 ≡ 0)
    × (row_layout 6 2 true 2 ≡ (5 ∷ 0 ∷ 1 ∷ 2 ∷ [], 3 ∷ 4 ∷ []))
unfolding compute_sector compute_blocknr row_layout slots_from
layout_run = (refl, refl, refl, refl)

compute_blocknr-compute_sector_example :
    compute_blocknr shape (compute_sector shape 75) (compute_sector shape 75).dd_idx ≡ 75
compute_blocknr-compute_sector_example =
    compute_blocknr-compute_sector shape-IsShape 75 (omega arith)

compute_blocknr-parity_example :
    compute_blocknr shape (compute_sector shape 75) (((compute_sector shape 75).pd_idx + 1) % 6) ≡ 0
compute_blocknr-parity_example =
    compute_blocknr-parity shape-IsShape 75 (omega arith) 1 (omega arith)

row_layout-IsOneToOne_example : IsOneToOne 6 2 (row_layout 6 2 true 4)
row_layout-IsOneToOne_example = row_layout-IsOneToOne shape-IsShape 4

row_layout-compute_sector_example :
    (at (row_layout 6 2 true ((75 / 8) / 4)).0 ((75 / 8) % 4) ≡ (compute_sector shape 75).dd_idx)
    × (at (row_layout 6 2 true ((75 / 8) / 4)).1 0 ≡ (compute_sector shape 75).pd_idx)
    × (at (row_layout 6 2 true ((75 / 8) / 4)).1 1 ≡ (compute_sector shape 75).qd_idx)
row_layout-compute_sector_example = row_layout-compute_sector 75 shape-IsShape
