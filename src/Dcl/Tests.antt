-- ===== src/Dcl/Tests.antt =====
-- Runs of the declustered map on a pool of five disks, and the theorems at that pool.
use md_kmec.Base.{
  ℕ, zero, suc, ◌*◌, ◌<◌, ◌≡◌, ◌≢◌, ◌↔◌, ◌⊎◌, inl, inr, refl, List, [], ◌∷◌, none, some, replicate,
  get_elem?, true, false, at, subst, arith,
}
use md_kmec.Dcl.Geom.{Geom, IsGeom}
use md_kmec.Dcl.Perm.{splitmix64, gen_base_perm, seed_for_base}
use md_kmec.Dcl.Perm.Shuffle.{IsBijection, gen_base_perm-IsBijection}
use md_kmec.Dcl.Tables.{write_at, invert_from, tables_step, tables_from, geom_tables}
use md_kmec.Dcl.Tables.Inverse.{HasRoom, HasTables, geom_tables-HasTables, geom_tables-IsGeom}
use md_kmec.Dcl.Map.{Role, role, disk, lcol, forward, inverse, data_chunk}
use md_kmec.Dcl.Map.Bijective.{lcol-disk, disk-lcol}
use md_kmec.Dcl.Map.RoundTrip.{inverse-forward}
use md_kmec.Dcl.Chain.{Assign, resolve, chain_root, chain_traverses, find_disk}
use md_kmec.Dcl.Chain.Walk.{AreAssigned}
use md_kmec.Dcl.Chain.Resolve.{IsResolved, resolve-IsResolved, resolve-ne, resolve-live}
use md_kmec.Dcl.Chain.Root.{chain_root-iff-traverses}

-- One group of one data and two parity columns, and two spare columns.
abbrev blank : Geom
blank = record {
  n = 5;
  g = 3;
  m = 2;
  k = 1;
  s = 2;
  ngroups = 1;
  nbase = 2;
  seed = 0x1234;
  base = replicate 10 0;
  ibase = replicate 10 0;
}

-- Each run of the loops fills these.
abbrev pool : Geom
pool = geom_tables blank

blank-IsGeom : IsGeom blank
blank-IsGeom = omega arith

blank-HasRoom : HasRoom blank
blank-HasRoom = omega arith

pool-IsGeom : IsGeom pool
pool-IsGeom = geom_tables-IsGeom blank-IsGeom

pool-HasTables : HasTables pool
pool-HasTables = geom_tables-HasTables blank blank-IsGeom blank-HasRoom

splitmix_known : (splitmix64 0).1 ≡ 0xe220a8397b1dcdaf
unfolding splitmix64
splitmix_known = refl

tables_run :
    (pool.base ≡ 3 ∷ 2 ∷ 0 ∷ 1 ∷ 4 ∷ 4 ∷ 0 ∷ 2 ∷ 1 ∷ 3 ∷ [])
    × (pool.ibase ≡ 2 ∷ 3 ∷ 1 ∷ 0 ∷ 4 ∷ 1 ∷ 3 ∷ 2 ∷ 4 ∷ 0 ∷ [])
unfolding geom_tables tables_from tables_step gen_base_perm seed_for_base write_at invert_from
tables_run = (refl, refl)

-- The same pool with the tables written out.
abbrev filled : Geom
filled = record blank {
  base = 3 ∷ 2 ∷ 0 ∷ 1 ∷ 4 ∷ 4 ∷ 0 ∷ 2 ∷ 1 ∷ 3 ∷ [];
  ibase = 2 ∷ 3 ∷ 1 ∷ 0 ∷ 4 ∷ 1 ∷ 3 ∷ 2 ∷ 4 ∷ 0 ∷ [];
}

pool-filled : pool ≡ filled
unfolding geom_tables tables_from tables_step gen_base_perm seed_for_base write_at invert_from
pool-filled = refl

filled-IsGeom : IsGeom filled
filled-IsGeom = omega arith

filled-HasTables : HasTables filled
filled-HasTables = subst HasTables pool-filled pool-HasTables

-- Chunk 7 is in row 7, whose permutation is the second shuffle turned by two.
forward_run : forward filled 7 ≡ record { row = 7; group = 0; slot = 0; lcol = 0; disk = 1 }
unfolding forward disk
forward_run = refl

inverse_run : inverse filled 1 7 ≡ (record { role = Role.data_col; group = 0; slot = 0 }, some 7)
unfolding inverse data_chunk role lcol
inverse_run = refl

-- Disk 3 is redirected to spare column 0, which in row 0 lies on the failed disk 1.
abbrev failed : List Assign
failed = record { disk = 3; spare = 0 } ∷ record { disk = 1; spare = 1 } ∷ []

failed-entries :
    (i : ℕ) (a : Assign)
    → get_elem? failed i ≡ some a
    → ((i ≡ 0) × (a.disk ≡ 3) × (a.spare ≡ 0)) ⊎ ((i ≡ 1) × (a.disk ≡ 1) × (a.spare ≡ 1))
failed-entries zero a h = inl (refl, ground arith, ground arith)
failed-entries (suc zero) a h = inr (refl, ground arith, ground arith)
failed-entries (suc (suc i)) a h = absurd (cc)

failed-AreAssigned : AreAssigned filled failed
failed-AreAssigned = record {
  disk_in = λ i a h. ground (arith, failed-entries i a h);
  spare_in = λ i a h. ground (arith, failed-entries i a h);
  one_disk = λ i j a b h k e. ground (arith, failed-entries i a h, failed-entries j b k);
  one_spare = λ i j a b h k e. ground (arith, failed-entries i a h, failed-entries j b k);
}

abbrev all_rows : List ℕ
all_rows = 100 ∷ 100 ∷ []

resolve_run :
    (resolve filled failed all_rows 0 0 ≡ record { disk = 4; dead = false })
    × (resolve filled failed (100 ∷ 0 ∷ []) 0 0 ≡ record { disk = 1; dead = true })
    × (chain_root filled failed 0 4 ≡ some 0)
    × (chain_traverses filled failed 0 1 0 ≡ true)
unfolding resolve chain_root chain_traverses disk lcol
resolve_run = (refl, refl, refl, refl)

gen_base_perm-IsBijection_example : IsBijection 5 (gen_base_perm 5 77)
gen_base_perm-IsBijection_example = gen_base_perm-IsBijection 5 77 (omega arith) (omega arith)

geom_tables-HasTables_example : HasTables (geom_tables blank)
geom_tables-HasTables_example = geom_tables-HasTables blank blank-IsGeom blank-HasRoom

lcol-disk_example : lcol filled 7 (disk filled 7 4) ≡ 4
lcol-disk_example = lcol-disk filled-IsGeom 7 filled-HasTables 4 (omega arith)

disk-lcol_example : disk filled 7 (lcol filled 7 2) ≡ 2
disk-lcol_example = disk-lcol filled-IsGeom 7 filled-HasTables 2 (omega arith)

inverse-forward_example : inverse filled (forward filled 7).disk (forward filled 7).row ≡ (
  record { role = Role.data_col; group = (forward filled 7).group; slot = (forward filled 7).slot },
  some 7,
)
inverse-forward_example = inverse-forward filled-IsGeom filled-HasTables 7 (omega arith)

resolve-IsResolved_example :
    IsResolved filled failed all_rows 0 0 (resolve filled failed all_rows 0 0)
resolve-IsResolved_example =
    resolve-IsResolved filled-IsGeom filled-HasTables failed-AreAssigned all_rows 0 0 (omega arith)

resolve-ne_example :
    (resolve filled failed all_rows 0 0).disk ≢ (resolve filled failed all_rows 0 2).disk
resolve-ne_example =
    resolve-ne filled-IsGeom filled-HasTables failed-AreAssigned all_rows 0 0 2 (omega arith)
      (omega arith) (omega arith)

all_rows-cover : (i : ℕ) → i < 2 → 0 < at all_rows i
all_rows-cover zero h = omega arith
all_rows-cover (suc zero) h = omega arith
all_rows-cover (suc (suc i)) h = absurd (omega arith)

resolve-live_example :
    let r = resolve filled failed all_rows 0 0 in
    (r.dead ≡ false) × (find_disk failed r.disk 0 ≡ none)
resolve-live_example =
    resolve-live filled-IsGeom filled-HasTables failed-AreAssigned all_rows 0 0 (omega arith)
      all_rows-cover

chain_root-iff-traverses_example :
    (chain_root filled failed 0 4 ≡ some 0)
    ↔ ((0 < 1 * 3) × (chain_traverses filled failed 0 4 0 ≡ true))
chain_root-iff-traverses_example =
    chain_root-iff-traverses filled-IsGeom filled-HasTables failed-AreAssigned 0 0 4 (omega arith)
