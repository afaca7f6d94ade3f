-- ===== src/Snap/Derive/Loop.antt =====
-- The state of the loop of `rk_sn_derive` in km/raid_km-snapmeta.c, and the copy that a snapshot gets.
use md_kmec.Base.{
  ℕ, ◌<◌, ◌≡◌, ◌≢◌, ◌⊎◌, Bool, true, false, none, some, List, [], ◌∷◌, ◌==◌, if_rule, length,
  xa_load, xa_load-store, IsSortedFrom, store-IsSortedFrom, arith, ==_iff,
}
use md_kmec.Snap.Origin.{IsDirectory, origin}
use md_kmec.Snap.Rmap.{own_origin, own_snap, own_free, Rmap}
use md_kmec.Snap.State.{SnapOne, owner_of}
use md_kmec.Snap.Apply.{keep_row, on_slot}
use md_kmec.Snap.Owned.{IsHeld, AllHeld, AllDistinct}
use md_kmec.Snap.Derive.{Building}

-- A reverse map as `rk_sn_load_maps` leaves it: its rows are rows of the array, and every owner is
-- the origin, a slot that a byte holds, or nobody.
pub record IsLoaded (phys_rows : ℕ) (rmap : Rmap) : Type 0 where
  pub sorted : IsSortedFrom 0 rmap
  pub inside :
      (idx owner row : ℕ)
      → xa_load rmap idx ≡ some (owner, row)
      → (idx < phys_rows) × ((owner ≡ own_free) ⊎ ((0 < owner) × (owner < 258)))

-- The state of the loop, with the entries `es` still to come.
pub record IsBuilding (lo : ℕ) (es : Rmap) (b : Building) : Type 0 where
  pub sorted : IsSortedFrom lo es
  pub rest : (idx : ℕ) (e : ℕ × ℕ) → xa_load es idx ≡ some e → xa_load b.sn.rmap idx ≡ some e
  pub directory : IsDirectory b.sn.origin_rows b.sn.odir
  pub home :
      (row : ℕ)
      → row < b.sn.origin_rows
      → b.moved row ≡ true
      → (origin b.sn.odir row < b.sn.phys_rows)
        × (owner_of b.sn (origin b.sn.odir row) ≡ (own_origin, row))
  pub still : (row : ℕ) → row < b.sn.origin_rows → b.moved row ≡ false → origin b.sn.odir row ≡ row
  pub held : AllHeld b.sn.origin_rows b.sn.phys_rows (owner_of b.sn) b.sn.slots b.sn.snaps
  pub distinct : AllDistinct b.sn.snaps
  pub idle :
      (p : ℕ)
      → b.sn.used p ≡ false
      → ((owner_of b.sn p).0 ≡ own_free) ⊎ ((e : ℕ × ℕ) × (xa_load es p ≡ some e))
  pub counted : b.sn.nsnaps ≡ length b.sn.snaps
  pub loaded : IsLoaded b.sn.phys_rows b.sn.rmap
  pub chosen :
      (p row : ℕ)
      → xa_load b.sn.rmap p ≡ some (own_origin, row)
      → xa_load es p ≡ none
      → (b.moved row ≡ true) × (origin b.sn.odir row ≡ p)
  pub freed : (p : ℕ) → (owner_of b.sn p).0 ≡ own_free → xa_load es p ≡ none → b.sn.used p ≡ false
  pub left : (row : ℕ) → b.moved row ≡ true → xa_load b.sn.rmap row ≢ none

-- The snapshot in the slot gets the copy that the reverse map says is its own.
module _ (rows phys_rows : ℕ) (own : ℕ → ℕ × ℕ) (slots : ℕ → Bool) (s row idx : ℕ)
    (here : own idx ≡ (own_snap s, row)) (lt : row < rows) (fits : idx < phys_rows) where
  copy-IsHeld :
      (g : SnapOne)
      → g.slot ≡ s
      → IsHeld rows phys_rows own slots g
      → IsHeld rows phys_rows own slots (keep_row row idx g)
  unfolding keep_row
  copy-IsHeld g e i = record {
    small = i.small;
    taken = i.taken;
    sorted = store-IsSortedFrom 0 g.exc row idx i.sorted (omega arith);
    copies =
        λ r q h. ground (arith, h, xa_load-store g.exc row r idx, i.copies r q, here, e, lt, fits);
  }

  pub copies_held :
      (chain : List SnapOne)
      → AllHeld rows phys_rows own slots chain
      → AllHeld rows phys_rows own slots (on_slot s (keep_row row idx) chain)
  unfolding on_slot
  copies_held [] h = tt
  copies_held (g ∷ r) (i, h) =
      if_rule (AllHeld rows phys_rows own slots) (g.slot == s)
        (λ e. (copy-IsHeld g ((==_iff g.slot s).0 e) i, h)) (λ _. (i, copies_held r h))
