-- ===== src/Dcl/Geom.antt =====
-- `struct dcl_geom` (km/raid_km_dcl.h), the declustered geometry, and the limits on it that
-- `dcl_selftest_set` (km/raid_km-dcl.c) checks before it builds one.
use md_kmec.Base.{ℕ, ◌+◌, ◌*◌, ◌≤◌, ◌<◌, ◌≡◌, List}

-- `base` and `ibase` are the two arrays of nbase * N entries.
pub record Geom : Type 0 where
  pub n : ℕ
  pub g : ℕ
  pub m : ℕ
  pub k : ℕ
  pub s : ℕ
  pub ngroups : ℕ
  pub nbase : ℕ
  pub seed : ℕ
  pub base : List ℕ
  pub ibase : List ℕ

-- The scalar fields fit one another, N - s = ngroups * g, and keep to the field limits.
pub record IsGeom (ge : Geom) : Type 0 where
  pub pool_max : ge.n ≤ 255
  pub nbase_pos : 0 < ge.nbase
  pub nbase_max : ge.nbase ≤ 64
  pub width : ge.k + ge.m ≡ ge.g
  pub data_pos : 0 < ge.k
  pub groups_pos : 0 < ge.ngroups
  pub columns : ge.ngroups * ge.g + ge.s ≡ ge.n
