-- ===== src/Snap/Rmap.antt =====
-- The reverse map of km/raid_km-snapmeta.c: who owns each physical row. An entry that says what the
-- default says is not stored.
use md_kmec.Base.{
  ℕ, ◌+◌, ◌≡◌, ◌&&◌, Option, none, some, ltb, ◌==◌, if◌then◌else◌, Xarray, xa_load, xa_store,
  xa_erase, xa_load-store, xa_load-erase, arith,
}

-- `RK_SN_OWN_ORIGIN`, `RK_SN_OWN_SNAP0`, `RK_SN_OWN_FREE`.
abbrev pub own_origin : ℕ
own_origin = 1

abbrev pub own_snap : ℕ → ℕ
own_snap slot = 2 + slot

abbrev pub own_free : ℕ
own_free = 0xffff

-- An owner and the origin row that the physical row holds for it.
abbrev pub Rmap : Type 0
Rmap = Xarray (ℕ × ℕ)

-- `rk_sn_default`.
unfoldable pub default_owner : ℕ → ℕ → ℕ × ℕ
default_owner rows phys = if ltb phys rows then (own_origin, phys) else (own_free, 0)

abbrev pub entry_or : ℕ × ℕ → Option (ℕ × ℕ) → ℕ × ℕ
entry_or d none = d
entry_or d (some e) = e

-- `rk_sn_rmap_get`.
unfoldable pub rmap_get : ℕ → Rmap → ℕ → ℕ × ℕ
rmap_get rows rmap phys = entry_or (default_owner rows phys) (xa_load rmap phys)

abbrev row_kept : ℕ → ℕ → ℕ
row_kept row owner = if owner == own_free then 0 else row

-- `rk_sn_rmap_set`, but for the mark of the page.
unfoldable pub rmap_put : ℕ → Rmap → ℕ → ℕ → ℕ → Rmap
unfolding default_owner
rmap_put rows rmap phys row owner =
    let kept = row_kept row owner in
    let d = default_owner rows phys in
    if (owner == d.0) && (kept == d.1) then xa_erase rmap phys else xa_store rmap phys (owner, kept)

-- What is set is read back, also where the entry is the default and only its absence says so; no
-- other row is touched.
pub rmap_get-rmap_put :
    (rows : ℕ) (rmap : Rmap) (phys row owner other : ℕ)
    → rmap_get rows (rmap_put rows rmap phys row owner) other
      ≡ (if phys == other then (owner, row_kept row owner) else rmap_get rows rmap other)
unfolding rmap_get rmap_put default_owner
rmap_get-rmap_put rows rmap phys row owner other = ground (
  arith,
  xa_load-store rmap phys other (owner, row_kept row owner),
  xa_load-erase rmap phys other,
)
