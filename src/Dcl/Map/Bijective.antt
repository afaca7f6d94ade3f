-- ===== src/Dcl/Map/Bijective.antt =====
-- In each row the columns and the disks of the pool correspond one to one.
use native.Mathlib.Nat.{mod-lt, div-lt_iff_lt-mul, mod-eq_of_lt, mul-le-mul_right}
use md_kmec.Base.{
  mod_wrap, ℕ, ◌+◌, ◌-◌, ◌*◌, ◌/◌, ◌%◌, ◌^◌, ◌≤◌, ◌<◌, ◌≡◌, ◌∙◌, at, u32, u64, arith, dec_lt,
}
use md_kmec.Dcl.Geom.{Geom, IsGeom}
use md_kmec.Dcl.Tables.Slice.{IsSlice}
use md_kmec.Dcl.Tables.Inverse.{HasTables, columns_pos}
use md_kmec.Dcl.Map.{perm_index, disk, lcol}

-- A rotation by `t` columns is undone by one of `n - t`, and no sum wraps.
rotate_back :
    (n x t : ℕ) → n ≤ 255 → x < n → t < n → u32 (u32 (u32 (x + t) % n + n) + 2 ^ 32 - t) % n ≡ x
rotate_back n x t small hx ht =
    let plain : u32 (x + t) ≡ x + t = omega arith in
    elim (dec_lt (x + t) n) [
      | yes p ↦
          let inner = mod-eq_of_lt {n = x + t} {m = n} p in
          let sum : u32 (u32 (x + t + n) + 2 ^ 32 - t) ≡ x + n = omega arith in
          rw (plain, inner, sum) (mod_wrap n (x + n) (omega arith) (omega arith) ∙ omega arith)
      | no p ↦
          let inner = mod_wrap n (x + t) (omega arith) (omega arith) in
          let sum : u32 (u32 (x + t - n + n) + 2 ^ 32 - t) ≡ x = omega arith in
          rw (plain, inner, sum) (mod-eq_of_lt hx)
    ]

rotate_forth :
    (n d t : ℕ) → n ≤ 255 → d < n → t < n → u32 (u32 (u32 (d + n) + 2 ^ 32 - t) % n + t) % n ≡ d
rotate_forth n d t small hd ht =
    let plain : u32 (u32 (d + n) + 2 ^ 32 - t) ≡ d + n - t = omega arith in
    elim (dec_lt d t) [
      | yes p ↦
          let inner = mod-eq_of_lt {n = d + n - t} {m = n} (omega arith) in
          let sum : u32 (d + n - t + t) ≡ d + n = omega arith in
          rw (plain, inner, sum) (mod_wrap n (d + n) (omega arith) (omega arith) ∙ omega arith)
      | no p ↦
          let inner = mod_wrap n (d + n - t) (omega arith) (omega arith) in
          let sum : u32 (d + n - t - n + t) ≡ d = omega arith in
          rw (plain, inner, sum) (mod-eq_of_lt hd)
    ]

module _ {ge : Geom} (v : IsGeom ge) (row : ℕ) where
  period_small : ge.nbase * ge.n ≤ 64 * 255
  period_small = omega (arith, mul-le-mul_right ge.n v.nbase_max, v.pool_max)

  period_pos : 0 < ge.nbase * ge.n
  period_pos = omega (arith, mul-le-mul_right ge.n v.nbase_pos, columns_pos v)

  -- The row's place in the period; nothing wraps.
  perm_index-lt : perm_index ge row < ge.nbase * ge.n
  perm_index-lt =
      let plain : u64 (ge.nbase * ge.n) ≡ ge.nbase * ge.n = omega (arith, period_small) in
      rw plain (omega (arith, period_small, mod-lt row {m = ge.nbase * ge.n} period_pos))

  abbrev shuffle_of : ℕ
  shuffle_of = perm_index ge row / ge.n

  abbrev turn : ℕ
  turn = perm_index ge row % ge.n

  shuffle_of-lt : shuffle_of < ge.nbase
  shuffle_of-lt = (div-lt_iff_lt-mul (columns_pos v)).1 perm_index-lt

  turn-lt : turn < ge.n
  turn-lt = mod-lt (perm_index ge row) (columns_pos v)

  -- Every index of `base` and `ibase` that the map computes lies in the arrays.
  pub index_in_tables : (c : ℕ) → c < ge.n → shuffle_of * ge.n + c < ge.nbase * ge.n
  index_in_tables c h = omega (arith, mul-le-mul_right ge.n shuffle_of-lt)

  pub disk-lt : (c : ℕ) → disk ge row c < ge.n
  unfolding disk
  disk-lt c = mod-lt _ (columns_pos v)

  module _ (h : HasTables ge) where
    the-IsSlice : IsSlice ge.n ge.base ge.ibase (shuffle_of * ge.n)
    the-IsSlice = h.slice shuffle_of shuffle_of-lt

    pub lcol-lt : (d : ℕ) → lcol ge row d < ge.n
    unfolding lcol
    lcol-lt d = the-IsSlice.ibase_in _ (mod-lt _ (columns_pos v))

    -- In every row `dcl_lcol` undoes `dcl_disk`: two columns never share a disk.
    pub lcol-disk : (c : ℕ) → c < ge.n → lcol ge row (disk ge row c) ≡ c
    unfolding lcol disk
    lcol-disk c hc =
        rw
          (rotate_back ge.n (at ge.base (shuffle_of * ge.n + c)) turn v.pool_max
            (the-IsSlice.base_in c hc) turn-lt)
          (the-IsSlice.ibase-base c hc)

    -- In every row `dcl_disk` undoes `dcl_lcol`: every disk of the pool holds a column.
    pub disk-lcol : (d : ℕ) → d < ge.n → disk ge row (lcol ge row d) ≡ d
    unfolding lcol disk
    disk-lcol d hd =
        let turned = u32 (u32 (d + ge.n) + 2 ^ 32 - turn) % ge.n in
        rw (the-IsSlice.base-ibase turned (mod-lt _ (columns_pos v)))
          (rotate_forth ge.n d turn v.pool_max hd turn-lt)
