-- ===== src/Layout/Row.antt =====
-- The slots of a row: `raidkm_reshape_row_layout` gives every member one role, the one that
-- `raid5_compute_sector` gives it.
use native.Mathlib.Nat.{mod-lt}
use md_kmec.Base.{
  ℕ, zero, suc, ◌+◌, ◌-◌, ◌/◌, ◌%◌, ◌<◌, ◌≡◌, refl, ap, ◌∙◌, List, ltb, at, length, if◌then◌else◌,
  if_rule, arith, dec_lt, mod_small, mod_wrap,
}
use md_kmec.Layout.{
  Shape, IsShape, data_disks, first_parity, compute_sector, slots_from, row_layout,
}
use md_kmec.Layout.RoundTrip.{rel-slot, first_parity-lt}

length-slots_from : (n first left i : ℕ) → length (slots_from n first left i) ≡ left
unfolding slots_from
length-slots_from n first zero i = refl
length-slots_from n first (suc left) i = ap suc (length-slots_from n first left (i + 1))

at-slots_from :
    (n first left i j : ℕ) → j < left → at (slots_from n first left i) j ≡ (first + (i + j)) % n
unfolding slots_from
at-slots_from n first zero i j h = absurd (omega arith)
at-slots_from n first (suc left) i zero h =
    let e : first + i ≡ first + (i + 0) = omega arith in ap (λ x. x % n) e
at-slots_from n first (suc left) i (suc j) h =
    let e : first + (i + 1 + j) ≡ first + (i + suc j) = omega arith in
    at-slots_from n first left (i + 1) j (omega arith) ∙ ap (λ x. x % n) e

-- The slot of a row's `i`th block, parity first.
abbrev pub slot_of : List ℕ × List ℕ → ℕ → ℕ → ℕ
slot_of slots m i = if ltb i m then at slots.1 i else at slots.0 (i - m)

-- There are as many slots of data and of parity as there are such members, and the blocks of the
-- row, parity first, correspond to the members one to one.
pub record IsOneToOne (n m : ℕ) (slots : List ℕ × List ℕ) : Type 0 where
  pub data_size : length slots.0 ≡ n - m
  pub parity_size : length slots.1 ≡ m
  pub block_at : ℕ → ℕ
  pub slot-lt : (i : ℕ) → i < n → slot_of slots m i < n
  pub block-lt : (x : ℕ) → x < n → block_at x < n
  pub block-slot : (i : ℕ) → i < n → block_at (slot_of slots m i) ≡ i
  pub slot-block : (x : ℕ) → x < n → slot_of slots m (block_at x) ≡ x

module _ {c : Shape} (v : IsShape c) (row : ℕ) where
  abbrev n : ℕ
  n = c.raid_disks

  abbrev pd : ℕ
  pd = first_parity c row

  abbrev slots : List ℕ × List ℕ
  slots = row_layout n c.m c.rotating row

  n_pos : 0 < n
  n_pos = omega (arith, v.some_data)

  slot_of-eq : (i : ℕ) → i < n → slot_of slots c.m i ≡ (pd + i) % n
  unfolding row_layout
  slot_of-eq i h =
      if_rule (λ x. x ≡ (pd + i) % n) (ltb i c.m)
        (λ parity. at-slots_from n pd c.m 0 i (ground arith) ∙ ap (λ x. x % n) (zero_add pd i))
        (λ beyond.
          at-slots_from n (pd + c.m) (n - c.m) 0 (i - c.m) (ground arith)
          ∙ ap (λ x. x % n) (ground arith))
    where
      zero_add : (a b : ℕ) → a + (0 + b) ≡ a + b
      zero_add a b = omega arith

  slot-rel : (x : ℕ) → x < n → (pd + (x + n - pd) % n) % n ≡ x
  slot-rel x h =
      let hp : pd < n = first_parity-lt v row in
      elim (dec_lt x pd) [
        | yes p ↦
            rw (mod_small n (x + n - pd) (omega arith))
              (mod_wrap n (pd + (x + n - pd)) (omega arith) (omega arith) ∙ omega arith)
        | no p ↦
            rw (mod_wrap n (x + n - pd) (omega arith) (omega arith))
              (mod_small n (pd + (x + n - pd - n)) (omega arith) ∙ omega arith)
      ]

  -- `raidkm_reshape_row_layout` gives every member of the array exactly one block of the row.
  pub row_layout-IsOneToOne : IsOneToOne n c.m slots
  row_layout-IsOneToOne = record {
    data_size = unfold row_layout in length-slots_from n (pd + c.m) (n - c.m) 0;
    parity_size = unfold row_layout in length-slots_from n pd c.m 0;
    block_at = λ x. (x + n - pd) % n;
    slot-lt = λ i h. omega (arith, slot_of-eq i h, mod-lt (pd + i) {m = n} n_pos);
    block-lt = λ x h. mod-lt (x + n - pd) {m = n} n_pos;
    block-slot = λ i h.
        ap (λ s. (s + n - pd) % n) (slot_of-eq i h) ∙ rel-slot n pd i (first_parity-lt v row) h;
    slot-block =
        λ x h. slot_of-eq ((x + n - pd) % n) (mod-lt (x + n - pd) {m = n} n_pos) ∙ slot-rel x h;
  }

-- `raidkm_reshape_row_layout` of the stripe of a sector agrees with `raid5_compute_sector` on it: on
-- the slot of its data, and on the first and the last slot of the parity.
pub row_layout-compute_sector :
    {c : Shape} (r_sector : ℕ)
    → IsShape c
    → let chunk = r_sector / c.sectors_per_chunk in
      let slots = row_layout c.raid_disks c.m c.rotating (chunk / data_disks c) in
      let place = compute_sector c r_sector in
      (at slots.0 (chunk % data_disks c) ≡ place.dd_idx)
      × (at slots.1 0 ≡ place.pd_idx)
      × (at slots.1 (c.m - 1) ≡ place.qd_idx)
unfolding row_layout compute_sector
row_layout-compute_sector {c} r_sector v =
    let chunk = r_sector / c.sectors_per_chunk in
    let k = data_disks c in
    let pd = first_parity c (chunk / k) in
    let dd : chunk % k < k = mod-lt chunk {m = k} (omega (arith, v.some_data)) in
    let plain : pd + c.m + (0 + chunk % k) ≡ pd + c.m + chunk % k = omega arith in
    let first : pd + (0 + 0) ≡ pd = omega arith in
    let last : pd + (0 + (c.m - 1)) ≡ pd + c.m - 1 = omega (arith, v.some_parity) in
    (
      at-slots_from c.raid_disks (pd + c.m) k 0 (chunk % k) dd ∙ ap (λ x. x % c.raid_disks) plain,
      at-slots_from c.raid_disks pd c.m 0 0 v.some_parity
          ∙ ap (λ x. x % c.raid_disks) first
          ∙ mod_small c.raid_disks pd (first_parity-lt v (chunk / k)),
      at-slots_from c.raid_disks pd c.m 0 (c.m - 1) (omega (arith, v.some_parity))
          ∙ ap (λ x. x % c.raid_disks) last,
    )
