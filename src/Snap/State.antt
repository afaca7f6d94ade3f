-- ===== src/Snap/State.antt =====
-- km/raid_km_snap.h: `struct raidkm_snap_one`, `struct raidkm_snap` and `struct rk_snap_op`, with the
-- accessors of km/raid_km-snap.c. A C string is the list of its bytes before the NUL. The bitmaps are
-- functions. `discards` collects the rows that `raidkm_rowmap_note_discard` is called on.
use md_kmec.Base.{
  ℕ, zero, suc, ◌+◌, ◌-◌, ◌/◌, Bool, true, false, Option, none, some, List, [], ◌∷◌, leb, ◌==◌,
  if◌then◌else◌, Xarray, xa_load, update,
}
use md_kmec.Snap.Origin.{Directory}
use md_kmec.Snap.Rmap.{Rmap, rmap_get, rmap_put}

-- `RK_SNAP_NAME`, `RK_SNAP_ATTRS`, `RK_SNAP_SLOTS`, `RK_SN_RMAP_PER_PAGE`.
abbrev pub name_size : ℕ
name_size = 64

abbrev pub attrs_size : ℕ
attrs_size = 1024

abbrev pub snap_slots : ℕ
snap_slots = 64

abbrev pub rmap_per_page : ℕ
rmap_per_page = 510

abbrev pub Text : Type 0
Text = List ℕ

-- One snapshot. `exc` holds the physical rows that it owns, by origin row.
pub record SnapOne : Type 0 where
  pub id : ℕ
  pub slot : ℕ
  pub name : Text
  pub attrs : Text
  pub ctime : ℕ
  pub exc : Xarray ℕ
  pub nexc : ℕ

-- The array's snapshots, oldest first, and its maps. `discards` are the rows that the row map was told
-- of, in their order. The queues, the copy-on-writes and the journal of the source's struct are records
-- of their own.
pub record Sn : Type 0 where
  pub phys_rows : ℕ
  pub origin_rows : ℕ
  pub row_sectors : ℕ
  pub odir : Directory
  pub leaves : ℕ
  pub used : ℕ → Bool
  pub cursor : ℕ
  pub redirected : ℕ
  pub snaps : List SnapOne
  pub nsnaps : ℕ
  pub next_id : ℕ
  pub slots : ℕ → Bool
  pub rmap : Rmap
  pub rdirty : ℕ → Bool
  pub freed : ℕ
  pub discards : List ℕ

-- What the journal records: a copy-on-write's redirect, or a command.
pub data Op : Type 0 where
  redirect : ℕ → ℕ → ℕ → Op
  create : SnapOne → Op
  destroy : ℕ → Op
  rename : ℕ → Text → Op
  set : ℕ → Text → Op

-- `find_next_zero_bit`: `n` places from `from` on; where none is clear, the place after them.
unfoldable pub find_zero : ℕ → (ℕ → Bool) → ℕ → ℕ
find_zero zero used from = from
find_zero (suc n) used from =
    let rest = find_zero n used (from + 1) in if used from then rest else from

abbrev pub find_next_zero : ℕ → (ℕ → Bool) → ℕ → ℕ
find_next_zero size used from = find_zero (size - from) used from

-- The place that `rk_alloc_row` settles on: from the cursor on, else from the start.
unfoldable pub free_place : Sn → ℕ
free_place sn =
    let next = find_next_zero sn.phys_rows sn.used sn.cursor in
    if leb sn.phys_rows next then find_next_zero sn.phys_rows sn.used 0 else next

-- `rk_alloc_row`: a free row, marked as used; `none` is U64_MAX.
unfoldable pub alloc_row : Sn → Option ℕ × Sn
unfolding free_place
alloc_row sn =
    let phys = free_place sn in
    if leb sn.phys_rows phys
    then (none, sn)
    else (some phys, record sn { used = update sn.used phys true; cursor = phys + 1 })

-- `rk_newest`: the last of the chain.
unfoldable pub newest : List SnapOne → Option SnapOne
newest [] = none
newest (g ∷ []) = some g
newest (g ∷ h ∷ r) = newest (h ∷ r)

abbrev pub lacks : Option SnapOne → ℕ → Bool
lacks none row = false
lacks (some g) row = elim (xa_load g.exc row) [ none ↦ true | some _ ↦ false ]

-- `rk_sn_shared`: there is a newest snapshot, and it has no copy of the row.
unfoldable pub shared : Sn → ℕ → Bool
unfolding newest
shared sn row = lacks (newest sn.snaps) row

-- `rk_snap_slot`.
unfoldable pub snap_slot : List SnapOne → ℕ → Option SnapOne
snap_slot [] s = none
snap_slot (g ∷ r) s = let rest = snap_slot r s in if g.slot == s then some g else rest

-- `rk_sn_rmap_set`.
unfoldable pub rmap_set : Sn → ℕ → ℕ → ℕ → Sn
unfolding rmap_put
rmap_set sn phys row owner = record sn {
  rmap = rmap_put sn.origin_rows sn.rmap phys row owner;
  rdirty = update sn.rdirty (phys / rmap_per_page) true;
}

-- `rk_sn_rmap_get`.
abbrev pub owner_of : Sn → ℕ → ℕ × ℕ
owner_of sn phys = rmap_get sn.origin_rows sn.rmap phys
