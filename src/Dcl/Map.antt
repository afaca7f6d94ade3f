-- ===== src/Dcl/Map.antt =====
-- km/raid_km_dcl.h, the map: `dcl_disk`, `dcl_lcol`, `dcl_role`, `dcl_forward`, `dcl_inverse`.
pub mod Bijective
pub mod RoundTrip
use md_kmec.Base.{
  ℕ, ◌+◌, ◌-◌, ◌*◌, ◌/◌, ◌%◌, ◌^◌, Option, none, some, at, u32, u64, ltb, if◌then◌else◌,
}
use md_kmec.Dcl.Geom.{Geom}

-- The permutation of a row: the base shuffle and the rotation. An index of an array that was
-- allocated does not wrap, so only the `u32` and `u64` values are cut.
abbrev pub perm_index : Geom → ℕ → ℕ
perm_index ge row = u32 (row % u64 (ge.nbase * ge.n))

unfoldable pub disk : Geom → ℕ → ℕ → ℕ
disk ge row lcol =
    let pidx = perm_index ge row in
    let b = pidx / ge.n in let t = pidx % ge.n in u32 (at ge.base (b * ge.n + lcol) + t) % ge.n

unfoldable pub lcol : Geom → ℕ → ℕ → ℕ
lcol ge row disk =
    let pidx = perm_index ge row in
    let b = pidx / ge.n in
    let t = pidx % ge.n in at ge.ibase (b * ge.n + u32 (u32 (disk + ge.n) + 2 ^ 32 - t) % ge.n)

-- DCL_ROLE_DATA, DCL_ROLE_PARITY, DCL_ROLE_SPARE.
pub data Role : Type 0 where
  data_col parity spare : Role

pub record Place : Type 0 where
  pub role : Role
  pub group : ℕ
  pub slot : ℕ

-- The number of group columns, `ge->ngroups * ge->g`.
abbrev pub gcols : Geom → ℕ
gcols ge = u32 (ge.ngroups * ge.g)

-- The role with `*group` and `*slot`.
unfoldable pub role : Geom → ℕ → Place
role ge lcol =
    if ltb lcol (gcols ge)
    then record {
      role = if ltb (lcol % ge.g) ge.k then Role.data_col else Role.parity;
      group = lcol / ge.g;
      slot = lcol % ge.g;
    }
    else record { role = Role.spare; group = 0; slot = u32 (lcol + 2 ^ 32 - gcols ge) }

-- `struct dcl_addr`.
pub record Addr : Type 0 where
  pub row : ℕ
  pub group : ℕ
  pub slot : ℕ
  pub lcol : ℕ
  pub disk : ℕ

unfoldable pub forward : Geom → ℕ → Addr
forward ge logical_chunk =
    let dcpr = u64 (ge.ngroups * ge.k) in
    let dcol = u32 (logical_chunk % dcpr) in
    let row = logical_chunk / dcpr in
    let group = dcol / ge.k in
    let slot = dcol % ge.k in
    let lcol = u32 (u32 (group * ge.g) + slot) in
    record { row = row; group = group; slot = slot; lcol = lcol; disk = disk ge row lcol }

-- `*logical_chunk` where the role is data; elsewhere the source leaves it alone.
unfoldable pub data_chunk : Geom → ℕ → Place → Option ℕ
data_chunk ge row place =
    let logical =
      u64 (u64 (u64 (u64 (row * ge.ngroups) * ge.k) + u64 (place.group * ge.k)) + place.slot) in
    elim place.role [ Role.data_col ↦ some logical | _ ↦ none ]

unfoldable pub inverse : Geom → ℕ → ℕ → Place × Option ℕ
inverse ge disk phys_chunk =
    let row = phys_chunk in
    let place = role ge (lcol ge row disk) in (place, data_chunk ge row place)
