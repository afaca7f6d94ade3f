-- ===== src/Dcl/Map/RoundTrip.antt =====
-- Logical data chunks and the data columns of the pool correspond one to one.
use native.Mathlib.Nat.{
  mod-lt, div-lt_iff_lt-mul, div-add-mod', mul-le-mul_right, mul-le-mul_left, mul_assoc,
}
use md_kmec.Base.{
  div_of_parts, mod_of_parts, ℕ, ◌+◌, ◌*◌, ◌/◌, ◌%◌, ◌^◌, ◌≤◌, ◌<◌, ◌≡◌, ◌∙◌, ap, sym, some, u32,
  u64, arith, ltb, if◌then◌else◌, ltb_iff,
}
use md_kmec.Dcl.Geom.{Geom, IsGeom}
use md_kmec.Dcl.Tables.Inverse.{HasTables}
use md_kmec.Dcl.Map.{Role, gcols, disk, lcol, role, data_chunk, forward, inverse}
use md_kmec.Dcl.Map.Bijective.{lcol-disk}

module _ {ge : Geom} (v : IsGeom ge) where
  pub gcols-plain : gcols ge ≡ ge.ngroups * ge.g
  gcols-plain = omega (arith, v.columns, v.pool_max)

  abbrev dcpr : ℕ
  dcpr = ge.ngroups * ge.k

  dcpr-le : dcpr ≤ ge.ngroups * ge.g
  dcpr-le = mul-le-mul_left ge.ngroups (omega (arith, v.width))

  dcpr_pos : 0 < dcpr
  dcpr_pos = omega (arith, mul-le-mul_right ge.k v.groups_pos, v.data_pos)

  width_pos : 0 < ge.g
  width_pos = omega (arith, v.width, v.data_pos)

  -- A group column lies in the pool.
  pub column-lt : (q r : ℕ) → q < ge.ngroups → r < ge.g → q * ge.g + r < ge.ngroups * ge.g
  column-lt q r hq hr = omega (arith, mul-le-mul_right ge.g hq)

  -- The role of column `r` of group `q`.
  role_of_column :
      (q r : ℕ)
      → q < ge.ngroups
      → r < ge.g
      → role ge (q * ge.g + r)
        ≡ record { role = if ltb r ge.k then Role.data_col else Role.parity; group = q; slot = r }
  unfolding role
  role_of_column q r hq hr =
      ground (
        arith,
        gcols-plain,
        column-lt q r hq hr,
        div_of_parts q r ge.g hr,
        mod_of_parts q r ge.g hr,
      )

  module _ (q r row : ℕ) (hq : q < ge.ngroups) (hr : r < ge.k) where
    abbrev chunk : ℕ
    chunk = row * dcpr + (q * ge.k + r)

    forward_of_parts : forward ge chunk ≡ record {
      row = row;
      group = q;
      slot = r;
      lcol = q * ge.g + r;
      disk = disk ge row (q * ge.g + r);
    }
    unfolding forward
    forward_of_parts =
        let place_lt : q * ge.k + r < dcpr = omega (arith, mul-le-mul_right ge.k hq) in
        let small : dcpr ≤ 255 = omega (arith, dcpr-le, v.columns, v.pool_max) in
        let plain : u64 dcpr ≡ dcpr = omega arith in
        let plain_place : u32 (q * ge.k + r) ≡ q * ge.k + r = omega arith in
        let column = column-lt q r hq (omega (arith, v.width)) in
        let plain_group : u32 (q * ge.g) ≡ q * ge.g =
          omega (arith, column, v.columns, v.pool_max) in
        let plain_column : u32 (q * ge.g + r) ≡ q * ge.g + r =
          omega (arith, column, v.columns, v.pool_max) in
        rw (
          plain,
          div_of_parts row (q * ge.k + r) dcpr place_lt,
          mod_of_parts row (q * ge.k + r) dcpr place_lt,
          plain_place,
          div_of_parts q r ge.k hr,
          mod_of_parts q r ge.k hr,
          plain_group,
          plain_column,
        )

    plain_rows : chunk < 2 ^ 64 → u64 (row * ge.ngroups) ≡ row * ge.ngroups
    plain_rows fits =
        omega (arith, mul-le-mul_left (row * ge.ngroups) v.data_pos, mul_assoc row ge.ngroups ge.k)

    data_chunk_of_parts :
        chunk < 2 ^ 64
        → data_chunk ge row (record { role = Role.data_col; group = q; slot = r }) ≡ some chunk
    unfolding data_chunk
    data_chunk_of_parts fits =
        let rows = plain_rows fits in
        ap some (omega (arith, mul_assoc row ge.ngroups ge.k, ap (λ (x : ℕ). x * ge.k) rows))

    place_of_disk :
        HasTables ge
        → role ge (lcol ge row (disk ge row (q * ge.g + r)))
          ≡ record { role = Role.data_col; group = q; slot = r }
    place_of_disk h =
        let hg : r < ge.g = omega (arith, v.width) in
        let in_pool : q * ge.g + r < ge.n = omega (arith, column-lt q r hq hg, v.columns) in
        ap (role ge) (lcol-disk v row h (q * ge.g + r) in_pool)
        ∙ role_of_column q r hq hg
        ∙ ap (λ b. record { role = if b then Role.data_col else Role.parity; group = q; slot = r })
            ((ltb_iff r ge.k).1 hr)

    inverse_of_parts :
        HasTables ge
        → chunk < 2 ^ 64
        → inverse ge (disk ge row (q * ge.g + r)) row
          ≡ (record { role = Role.data_col; group = q; slot = r }, some chunk)
    unfolding inverse
    inverse_of_parts h fits =
        ap (λ x. (x, data_chunk ge row x)) (place_of_disk h)
        ∙ ap (λ x. (record { role = Role.data_col; group = q; slot = r }, x))
            (data_chunk_of_parts fits)

  -- A chunk number is its row and its place in the row.
  chunk_parts : (lc : ℕ) → lc ≡ lc / dcpr * dcpr + (lc % dcpr / ge.k * ge.k + lc % dcpr % ge.k)
  chunk_parts lc = omega (arith, div-add-mod' lc dcpr, div-add-mod' (lc % dcpr) ge.k)

  group-lt : (lc : ℕ) → lc % dcpr / ge.k < ge.ngroups
  group-lt lc = (div-lt_iff_lt-mul v.data_pos).1 (mod-lt lc dcpr_pos)

  -- `dcl_inverse` gives back the chunk, the group and the slot that `dcl_forward` placed, for every
  -- chunk number that a u64 holds.
  pub inverse-forward :
      HasTables ge
      → (lc : ℕ) → lc < 2 ^ 64
      → inverse ge (forward ge lc).disk (forward ge lc).row ≡ (
        record { role = Role.data_col; group = (forward ge lc).group; slot = (forward ge lc).slot },
        some lc,
      )
  inverse-forward h lc fits =
      let q = lc % dcpr / ge.k in
      let r = lc % dcpr % ge.k in
      let row = lc / dcpr in
      let hq = group-lt lc in
      let hr : r < ge.k = mod-lt (lc % dcpr) v.data_pos in
      let e = chunk_parts lc in
      let placed = ap (forward ge) e ∙ forward_of_parts q r row hq hr in
      rw placed (
        inverse_of_parts q r row hq hr h (rw (← e) fits)
        ∙ ap (λ x. (record { role = Role.data_col; group = q; slot = r }, some x)) (sym e))
