-- ===== src/Snap/Spares.antt =====
-- `raidkm_snap_map_bio` of km/raid_km-snap.c and the snapshots: nothing that it lets through to the
-- members changes a row that a snapshot reads.
use md_kmec.Base.{
  ℕ, ◌+◌, ◌*◌, ◌/◌, ◌<◌, ◌≡◌, ◌≢◌, refl, subst, sym, ap, ◌∙◌, Bool, true, false, ◌||◌, List, [],
  ◌∷◌, ◌++◌, ◌==◌, if◌then◌else◌, arith, inl, inr,
}
use md_kmec.Snap.Origin.{origin}
use md_kmec.Snap.Rmap.{own_free}
use md_kmec.Snap.State.{Sn, SnapOne, owner_of, shared, newest, lacks}
use md_kmec.Snap.View.{resolve}
use md_kmec.Snap.Owned.{IsOwned, AllHeld, AllHeld-parts, resolve-owned}
use md_kmec.Snap.Redirect.{home-owned}
use md_kmec.Snap.InPlace.{resolve-ne}
use md_kmec.Snap.Bio.{Kind, Bio, Io, write_op, discard_op, go, Result}
use md_kmec.Snap.MapBio.{map_rw}
use md_kmec.Snap.MapBio.Safe.{IsWithin, MayTake, map_rw-Goes}
use md_kmec.Snap.Discard.{map_bio, by_kind, discard}
use md_kmec.Snap.Discard.Safe.{discard-Trims}

-- A physical row behind no row of any snapshot.
abbrev pub IsUnseen : Sn → ℕ → Type 0
IsUnseen sn phys =
    (older : List SnapOne) (g : SnapOne) (newer : List SnapOne) (row : ℕ)
    → older ++ g ∷ newer ≡ sn.snaps
    → row < sn.origin_rows
    → resolve (g ∷ newer) (origin sn.odir) row ≢ phys

newest-append :
    (older : List SnapOne) (g : SnapOne) (newer : List SnapOne)
    → newest (older ++ g ∷ newer) ≡ newest (g ∷ newer)
unfolding newest
newest-append [] g newer = refl
newest-append (a ∷ []) g newer = refl
newest-append (a ∷ b ∷ r) g newer = newest-append (b ∷ r) g newer

suffix_held :
    (sn : Sn) (older : List SnapOne) (g : SnapOne) (newer : List SnapOne)
    → IsOwned sn
    → older ++ g ∷ newer ≡ sn.snaps
    → AllHeld sn.origin_rows sn.phys_rows (owner_of sn) sn.slots (g ∷ newer)
suffix_held sn older g newer w e =
    (AllHeld-parts sn.origin_rows sn.phys_rows (owner_of sn) sn.slots older (g ∷ newer)
      (subst (AllHeld sn.origin_rows sn.phys_rows (owner_of sn) sn.slots) (sym e) w.held)).1

-- The origin's own row of a row that is not shared.
home-IsUnseen :
    (sn : Sn) (row : ℕ)
    → IsOwned sn
    → row < sn.origin_rows
    → shared sn row ≡ false
    → IsUnseen sn (origin sn.odir row)
unfolding shared
home-IsUnseen sn row w lt h older g newer other e lt' =
    resolve-ne sn.origin_rows sn.phys_rows (owner_of sn) sn.slots (origin sn.odir) g newer row other
      (suffix_held sn older g newer w e)
      (ap (λ o. lacks o row) (sym (newest-append older g newer) ∙ ap newest e) ∙ h)
      (w.home row lt).1 (w.home other lt').1

-- A row that nobody owns.
idle-IsUnseen :
    (sn : Sn) (phys : ℕ) → IsOwned sn → (owner_of sn phys).0 ≡ own_free → IsUnseen sn phys
idle-IsUnseen sn phys w idle older g newer other e lt q =
    (resolve-owned sn.origin_rows sn.phys_rows (owner_of sn) sn.slots (origin sn.odir) (g ∷ newer)
        other (suffix_held sn older g newer w e) lt (home-owned sn other w lt)).1
      (ap (λ p. (owner_of sn p).0) q ∙ idle)

MayTake-IsUnseen :
    (sn : Sn) (row phys : ℕ)
    → IsOwned sn
    → row < sn.origin_rows
    → MayTake sn row phys
    → IsUnseen sn phys
MayTake-IsUnseen sn row phys w lt (inl (h, q)) =
    subst (IsUnseen sn) (sym q) (home-IsUnseen sn row w lt h)
MayTake-IsUnseen sn row phys w lt (inr (h, fits, idle)) = idle-IsUnseen sn phys w idle

routed :
    (c : Bool) (k : Kind) (x rw_result dis : Result)
    → c ≡ false
    → (if c then x else by_kind k rw_result dis) ≡ by_kind k rw_result dis
routed true k x rw_result dis e = absurd (cc e)
routed false k x rw_result dis e = refl

not_passed :
    (b : Bio) → b.remapped ≡ false → b.sectors ≢ 0 → (b.remapped || (b.sectors == 0)) ≡ false
not_passed b e h =
    let none : (b.sectors == 0) ≡ false = ground arith in ap (λ c. c || (b.sectors == 0)) e ∙ none

-- A write that is let through stays within one physical row, and no snapshot reads that row.
pub map_bio_write :
    (can_front can_split : Bool) (io later : Io) (b b' : Bio)
    → IsOwned io.sn
    → 0 < io.sn.row_sectors
    → b.kind ≡ write_op
    → b.remapped ≡ false
    → b.sectors ≢ 0
    → (map_bio can_front can_split io later b).outcome ≡ go b'
    → (phys : ℕ) × IsWithin io.sn.row_sectors phys b' × IsUnseen io.sn phys
unfolding map_bio
map_bio_write can_front can_split io later b b' w pos kind origin_bio some_sectors e =
    let r = map_rw can_split io b in
    let d = discard can_front can_split io later b in
    let pass =
      routed (b.remapped || (b.sectors == 0)) b.kind _ r d (not_passed b origin_bio some_sectors) in
    let f = sym (ap (λ t. t.outcome) (pass ∙ ap (λ k. by_kind k r d) kind)) ∙ e in
    let (lt, goes) = map_rw-Goes can_split io b w pos kind b' f in
    (
      goes.phys,
      goes.within,
      MayTake-IsUnseen io.sn (b.sector / io.sn.row_sectors) goes.phys w lt goes.taken,
    )

-- A discard that is let through trims whole physical rows, and no snapshot reads any of them.
pub map_bio_discard :
    (can_front can_split : Bool) (io later : Io) (b b' : Bio)
    → IsOwned io.sn
    → 0 < io.sn.row_sectors
    → b.kind ≡ discard_op
    → b.remapped ≡ false
    → b.sectors ≢ 0
    → (map_bio can_front can_split io later b).outcome ≡ go b'
    → (phys : ℕ) × (n : ℕ) × (b'.sector ≡ phys * io.sn.row_sectors)
      × (b'.sectors ≡ n * io.sn.row_sectors)
      × ((j : ℕ) → j < n → IsUnseen io.sn (phys + j))
unfolding map_bio
map_bio_discard can_front can_split io later b b' w pos kind origin_bio some_sectors e =
    let r = map_rw can_split io b in
    let d = discard can_front can_split io later b in
    let pass =
      routed (b.remapped || (b.sectors == 0)) b.kind _ r d (not_passed b origin_bio some_sectors) in
    let f = sym (ap (λ t. t.outcome) (pass ∙ ap (λ k. by_kind k r d) kind)) ∙ e in
    let t = discard-Trims can_front can_split io later b b' pos f in
    (
      t.phys,
      t.n,
      t.starts,
      t.covers,
      λ j lt.
          let (unshared, place) = t.each j lt in
          subst (IsUnseen io.sn) place
            (home-IsUnseen io.sn (t.row + j) w (omega (arith, t.inside, lt)) unshared),
    )
