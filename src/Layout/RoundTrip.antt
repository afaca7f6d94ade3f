-- ===== src/Layout/RoundTrip.antt =====
-- The sector of an array and its place on the members determine each other.
use native.Mathlib.Nat.{mod-lt, div-add-mod', mul-le-mul_left, mul-le-mul_right}
use md_kmec.Base.{
  ℕ, ◌+◌, ◌-◌, ◌*◌, ◌/◌, ◌%◌, ◌^◌, ◌≤◌, ◌<◌, ◌≡◌, refl, sym, ap, ◌∙◌, true, false, ◌==◌, ==_iff,
  ltb, u64, if_rule, arith, Bool-cases, inl, inr, dec_lt, div_of_parts, mod_of_parts, mod_small,
  mod_wrap,
}
use md_kmec.Layout.{
  Shape, IsShape, Place, data_disks, first_parity, compute_sector, compute_blocknr,
}

-- A slot counted from the first parity slot, and back.
pub rel-slot : (n pd i : ℕ) → pd < n → i < n → ((pd + i) % n + n - pd) % n ≡ i
rel-slot n pd i hp hi = elim (dec_lt (pd + i) n) [
  | yes p ↦
      rw (mod_small n (pd + i) p)
        (mod_wrap n (pd + i + n - pd) (omega arith) (omega arith) ∙ omega arith)
  | no p ↦
      rw (mod_wrap n (pd + i) (omega arith) (omega arith))
        (mod_small n (pd + i - n + n - pd) (omega arith) ∙ omega arith)
]

module _ {c : Shape} (v : IsShape c) where
  pub first_parity-lt : (stripe : ℕ) → first_parity c stripe < c.raid_disks
  first_parity-lt stripe = ground (
    arith,
    v.some_parity,
    v.some_data,
    mod-lt stripe {m = c.raid_disks} (omega (arith, v.some_data)),
  )

  module _ (r_sector : ℕ) (fits : r_sector < 2 ^ 64) where
    abbrev chunk : ℕ
    chunk = r_sector / c.sectors_per_chunk

    abbrev stripe : ℕ
    stripe = chunk / data_disks c

    abbrev offset : ℕ
    offset = r_sector % c.sectors_per_chunk

    abbrev dd : ℕ
    dd = chunk % data_disks c

    parts : (stripe * data_disks c + dd ≡ chunk) × (chunk * c.sectors_per_chunk + offset ≡ r_sector)
    parts = (div-add-mod' chunk (data_disks c), div-add-mod' r_sector c.sectors_per_chunk)

    offset-lt : offset < c.sectors_per_chunk
    offset-lt = mod-lt r_sector {m = c.sectors_per_chunk} v.some_sectors

    dd-lt : dd < data_disks c
    dd-lt = mod-lt chunk {m = data_disks c} (omega (arith, v.some_data))

    sector_fits :
        u64 (stripe * c.sectors_per_chunk + offset) ≡ stripe * c.sectors_per_chunk + offset
    sector_fits =
        let some_data : 1 ≤ data_disks c = omega (arith, v.some_data) in
        let below : stripe ≤ chunk = omega (arith, mul-le-mul_left stripe some_data, parts.0) in
        omega (arith, mul-le-mul_right c.sectors_per_chunk below, parts.1)

    abbrev place : Place
    place = compute_sector c r_sector

    pub place-eq :
        (place.sector ≡ stripe * c.sectors_per_chunk + offset)
        × (place.pd_idx ≡ first_parity c stripe)
        × (place.dd_idx ≡ (first_parity c stripe + (c.m + dd)) % c.raid_disks)
    unfolding compute_sector
    place-eq =
        let sum : first_parity c stripe + c.m + dd ≡ first_parity c stripe + (c.m + dd) =
          omega arith in
        (sector_fits, refl, ap (λ x. x % c.raid_disks) sum)

    rel-eq : (place.dd_idx + c.raid_disks - place.pd_idx) % c.raid_disks ≡ c.m + dd
    rel-eq =
        rw (place-eq.1, place-eq.2)
          (rel-slot c.raid_disks (first_parity c stripe) (c.m + dd) (first_parity-lt stripe)
            (omega (arith, dd-lt)))

    -- A data slot is not the first parity slot.
    data_slot-ne : (place.dd_idx == place.pd_idx) ≡ false
    data_slot-ne = elim (Bool-cases (place.dd_idx == place.pd_idx)) [
      | inl e ↦
          let same : place.dd_idx ≡ place.pd_idx = (==_iff _ _).0 e in
          let whole : (place.pd_idx + c.raid_disks - place.pd_idx) % c.raid_disks ≡ c.m + dd =
            ap (λ i. (i + c.raid_disks - place.pd_idx) % c.raid_disks) (sym same) ∙ rel-eq in
          let plain : place.pd_idx + c.raid_disks - place.pd_idx ≡ c.raid_disks = omega arith in
          let zero_left : c.raid_disks % c.raid_disks ≡ 0 =
            mod_wrap c.raid_disks c.raid_disks (omega arith) (omega (arith, v.some_data))
            ∙ omega arith in
          absurd (omega (arith, ap (λ x. x % c.raid_disks) plain, whole, zero_left, v.some_parity))
      | inr e ↦ e
    ]

    same-eq : (x : ℕ) → (x == x) ≡ true
    same-eq x = (==_iff x x).1 refl

    -- `raid5_compute_blocknr` of the data slot where `raid5_compute_sector` puts a sector is the
    -- sector: its own check never fails, and the slot is never taken for a parity slot.
    pub compute_blocknr-compute_sector : compute_blocknr c place place.dd_idx ≡ r_sector
    unfolding compute_blocknr
    compute_blocknr-compute_sector =
        let off_eq : place.sector % c.sectors_per_chunk ≡ offset =
          ap (λ x. x % c.sectors_per_chunk) (place-eq.0)
          ∙ mod_of_parts stripe offset c.sectors_per_chunk offset-lt in
        let stripe_eq : place.sector / c.sectors_per_chunk ≡ stripe =
          ap (λ x. x / c.sectors_per_chunk) (place-eq.0)
          ∙ div_of_parts stripe offset c.sectors_per_chunk offset-lt in
        let chunk_small : chunk ≤ r_sector =
          omega (arith, mul-le-mul_left chunk v.some_sectors, parts.1) in
        let chunk_eq : u64 (stripe * data_disks c + (c.m + dd - c.m)) ≡ chunk =
          omega (arith, parts.0, chunk_small) in
        let sector_eq : u64 (chunk * c.sectors_per_chunk + offset) ≡ r_sector =
          omega (arith, parts.1) in
        let not_parity : ltb (c.m + dd) c.m ≡ false = ground arith in
        rw (off_eq, stripe_eq, rel-eq, chunk_eq, sector_eq, data_slot-ne, not_parity)
          (rw
            (same-eq place.sector, same-eq place.dd_idx, same-eq place.pd_idx, same-eq place.qd_idx)
            refl)

    -- The slots of the parity of its stripe are parity slots for it: the answer there is 0.
    pub compute_blocknr-parity :
        (j : ℕ) → j < c.m → compute_blocknr c place ((place.pd_idx + j) % c.raid_disks) ≡ 0
    unfolding compute_blocknr
    compute_blocknr-parity j h =
        let rel : ((place.pd_idx + j) % c.raid_disks + c.raid_disks - place.pd_idx) % c.raid_disks
            ≡ j =
          rw (place-eq.1) (
            rel-slot c.raid_disks (first_parity c stripe) j (first_parity-lt stripe)
              (omega (arith, v.some_data))) in
        let parity : ltb j c.m ≡ true = ground arith in
        if_rule (λ x. x ≡ 0) ((place.pd_idx + j) % c.raid_disks == place.pd_idx) (λ _. refl)
          (λ _. rw (rel, parity) refl)
