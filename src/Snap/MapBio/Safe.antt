-- ===== src/Snap/MapBio/Safe.antt =====
-- Where `raidkm_snap_map_bio` of km/raid_km-snap.c lets a write go.
use md_kmec.Base.{
  ℕ, ◌+◌, ◌-◌, ◌*◌, ◌/◌, ◌<◌, ◌≤◌, ◌≡◌, ◌⊎◌, refl, subst, sym, ◌∙◌, Bool, true, false, not, ◌||◌,
  Option, none, some, List, [], ◌∷◌, length, ltb, leb, ◌==◌, if_rule, arith, inl, inr, ==_iff,
  div_bounds, next_mul,
}
use md_kmec.Snap.Origin.{origin}
use md_kmec.Snap.Rmap.{own_free}
use md_kmec.Snap.State.{Sn, SnapOne, owner_of, shared, newest, lacks, alloc_row}
use md_kmec.Snap.Alloc.{alloc_row-some}
use md_kmec.Snap.Owned.{IsOwned}
use md_kmec.Snap.Bio.{
  write_op, Bio, Io, go, Result, end_of, front, busy_find, free_slot, remap, is_write,
}
use md_kmec.Snap.MapBio.{
  map_in_row, map_rw, write_shared, start_cow, start_whole, start_partial, is_whole, at_origin,
  unless_busy,
}

unshared_empty :
    (chain : List SnapOne) (row : ℕ) → length chain ≡ 0 → lacks (newest chain) row ≡ false
unfolding newest
unshared_empty [] row e = refl
unshared_empty (g ∷ r) row e = absurd (omega (arith, e))

-- The bio is within a physical row.
pub record IsWithin (rs phys : ℕ) (b : Bio) : Type 0 where
  pub from_row : phys * rs ≤ b.sector
  pub to_row : end_of b ≤ phys * rs + rs

-- The row that a write may go to: the origin's own, not shared with the newest snapshot; or, for a
-- shared row, one that nobody owns.
abbrev pub MayTake : Sn → ℕ → ℕ → Type 0
MayTake sn row phys =
    ((shared sn row ≡ false) × (phys ≡ origin sn.odir row))
    ⊎ ((shared sn row ≡ true) × (phys < sn.phys_rows) × ((owner_of sn phys).0 ≡ own_free))

pub record Goes (io : Io) (row : ℕ) (b : Bio) : Type 0 where
  pub phys : ℕ
  pub taken : MayTake io.sn row phys
  pub within : IsWithin io.sn.row_sectors phys b

-- If the result is to go on, it goes to such a row.
abbrev pub AllGo : Io → ℕ → Result → Type 0
AllGo io row r = (b : Bio) → r.outcome ≡ go b → Goes io row b

module _ (io : Io) (row : ℕ) (b : Bio) (w : IsOwned io.sn) (lo : row * io.sn.row_sectors ≤ b.sector)
    (hi : end_of b ≤ row * io.sn.row_sectors + io.sn.row_sectors) where
  remap-IsWithin :
      (phys : ℕ)
      → IsWithin io.sn.row_sectors phys
          (remap io.sn.row_sectors b phys (b.sector - row * io.sn.row_sectors))
  remap-IsWithin phys = record { from_row = omega arith; to_row = omega (arith, lo, hi) }

  at_origin_goes : shared io.sn row ≡ false → AllGo io row (at_origin io row b)
  at_origin_goes h b' e =
      let rs = io.sn.row_sectors in
      let q : remap rs b (origin io.sn.odir row) (b.sector - row * rs) ≡ b' = cc e in
      subst (Goes io row) q (record {
        phys = origin io.sn.odir row;
        taken = inl (h, refl);
        within = remap-IsWithin (origin io.sn.odir row);
      })

  start_whole_goes :
      (i : ℕ) (o : Option ℕ) (sn : Sn)
      → shared io.sn row ≡ true
      → alloc_row io.sn ≡ (o, sn)
      → AllGo io row (start_whole io row b i (o, sn))
  unfolding start_whole
  start_whole_goes i none sn h a b' e = absurd (cc e)
  start_whole_goes i (some new_phys) sn h a b' e =
      let rs = io.sn.row_sectors in
      let q : remap rs b new_phys (b.sector - row * rs) ≡ b' = cc e in
      let (fits, free, _) = alloc_row-some io.sn new_phys sn a in
      subst (Goes io row) q (record {
        phys = new_phys;
        taken = inr (h, fits, w.idle new_phys free);
        within = remap-IsWithin new_phys;
      })

  start_partial_goes : (i : ℕ) → AllGo io row (start_partial io row b i)
  unfolding start_partial
  start_partial_goes i b' e = absurd (cc e)

  start_cow_goes :
      (slot : Option ℕ) → shared io.sn row ≡ true → AllGo io row (start_cow io row b slot)
  unfolding start_cow
  start_cow_goes none h = λ b' e. absurd (cc e)
  start_cow_goes (some i) h =
      if_rule (AllGo io row) io.hold (λ _ b' e. absurd (cc e))
        (λ _.
          if_rule (AllGo io row) (is_whole io row b)
            (λ _. start_whole_goes i (alloc_row io.sn).0 (alloc_row io.sn).1 h refl)
            (λ _. start_partial_goes i))

  write_shared_goes : shared io.sn row ≡ true → AllGo io row (write_shared io row b)
  unfolding write_shared
  write_shared_goes h =
      if_rule (AllGo io row) io.broken (λ _ b' e. absurd (cc e))
        (λ _. start_cow_goes (free_slot io.cow 0) h)

  unless_busy_goes :
      (slot : Option ℕ) (r : Result) → AllGo io row r → AllGo io row (unless_busy io b slot r)
  unless_busy_goes none r h = h
  unless_busy_goes (some i) r h = λ b' e. absurd (cc e)

  -- A write within a row.
  map_in_row_goes : b.kind ≡ write_op → AllGo io row (map_in_row io row b)
  unfolding map_in_row
  map_in_row_goes k =
      if_rule (AllGo io row) (not (is_write b.kind) || (io.sn.nsnaps == 0))
        (λ e. at_origin_goes (no_snaps e))
        (λ _. unless_busy_goes (busy_find io row) _ (
          if_rule (AllGo io row) (shared io.sn row) (λ h. write_shared_goes h)
            (λ h. at_origin_goes h)))
    where
      no_snaps : (not (is_write b.kind) || (io.sn.nsnaps == 0)) ≡ true → shared io.sn row ≡ false
      no_snaps e =
          let f = rw k at e in
          unshared_empty io.sn.snaps row (sym w.counted ∙ (==_iff io.sn.nsnaps 0).0 f)

-- A bio of `raidkm_snap_map_bio` past the front of the function.
pub map_rw-Goes :
    (can_split : Bool) (io : Io) (b : Bio)
    → IsOwned io.sn
    → 0 < io.sn.row_sectors
    → b.kind ≡ write_op
    → (b' : Bio) → (map_rw can_split io b).outcome ≡ go b'
    → (b.sector / io.sn.row_sectors < io.sn.origin_rows) × Goes io (b.sector / io.sn.row_sectors) b'
unfolding map_rw
map_rw-Goes can_split io b w pos k =
    let rs = io.sn.row_sectors in
    let row = b.sector / rs in
    let len = (row + 1) * rs - b.sector in
    let (lo, hi) = div_bounds b.sector rs pos in
    if_rule Passes (leb io.sn.origin_rows row) (λ _ b' e. absurd (cc e))
      (λ t.
        if_rule Passes (ltb ((row + 1) * rs) (end_of b))
          (λ _.
            if_rule Passes can_split
              (λ _ b' e. (
                ground (arith, t),
                map_in_row_goes io row (front b len) w lo (omega (arith, hi, next_mul row rs)) k b'
                    e,
              ))
              (λ _ b' e. absurd (cc e)))
          (λ u b' e. (
            ground (arith, t),
            map_in_row_goes io row b w lo (ground (arith, u, next_mul row rs)) k b' e,
          )))
  where
    Passes : Result → Type 0
    Passes r =
        (b' : Bio)
        → r.outcome ≡ go b'
        → (b.sector / io.sn.row_sectors < io.sn.origin_rows)
          × Goes io (b.sector / io.sn.row_sectors) b'
