-- ===== src/Dcl/Tables.antt =====
-- km/raid_km_dcl.h, `dcl_geom_tables`: the permutation tables of a geometry and their inverses.
pub mod Slice
pub mod Inverse
use md_kmec.Base.{ℕ, zero, suc, ◌+◌, ◌*◌, List, [], ◌∷◌, at, set}
use md_kmec.Dcl.Geom.{Geom}
use md_kmec.Dcl.Perm.{gen_base_perm, seed_for_base}

-- What a call that fills `xs` through the pointer `tbl + off` leaves in `tbl`.
unfoldable pub write_at : List ℕ → ℕ → List ℕ → List ℕ
write_at tbl off [] = tbl
write_at tbl off (x ∷ xs) = write_at (set tbl off x) (off + 1) xs

-- `for (c = 0; c < N; c++) ibase[off + base[off + c]] = c;` with `left` rounds left at column `c`.
unfoldable pub invert_from : List ℕ → ℕ → ℕ → ℕ → List ℕ → List ℕ
invert_from base off zero c ibase = ibase
invert_from base off (suc left) c ibase =
    invert_from base off left (c + 1) (set ibase (off + at base (off + c)) c)

-- The body of the loop over the base shuffles.
unfoldable pub tables_step : Geom → ℕ → Geom
tables_step ge b =
    let off = b * ge.n in
    let base = write_at ge.base off (gen_base_perm ge.n (seed_for_base ge.seed b)) in
    record ge { base = base; ibase = invert_from base off ge.n 0 ge.ibase }

unfoldable pub tables_from : ℕ → ℕ → Geom → Geom
tables_from zero b ge = ge
tables_from (suc left) b ge = tables_from left (b + 1) (tables_step ge b)

unfoldable pub geom_tables : Geom → Geom
geom_tables ge = tables_from ge.nbase 0 ge
