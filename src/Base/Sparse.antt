-- ===== src/Base/Sparse.antt =====
-- The kernel's xarray as the source uses it: a sparse array, its entries in the order of their
-- indices, which is the order `xa_for_each` visits them in.
use Prim.Native.Nat.{ℕ, ◌+◌, ◌≤◌, ◌<◌}
use mathlib.Core.Path.{◌≡◌, refl}
use mathlib.Core.List.{List, [], ◌∷◌}
use mathlib.Core.Option.{Option, none, some}
use native.Mathlib.Omega.{arith}
use md_kmec.Base.Lists.{length}
use md_kmec.Base.Tests.{◌==◌, ltb, if◌then◌else◌}

abbrev pub Xarray : Type 0 → Type 0
Xarray A = List (ℕ × A)

module _ {A : Type 0} where
  unfoldable pub xa_load : Xarray A → ℕ → Option A
  xa_load [] k = none
  xa_load ((j, v) ∷ r) k = let rest = xa_load r k in if j == k then some v else rest

  unfoldable pub xa_store : Xarray A → ℕ → A → Xarray A
  xa_store [] k v = (k, v) ∷ []
  xa_store ((j, w) ∷ r) k v =
      let rest = xa_store r k v in
      if j == k then (k, v) ∷ r else if ltb k j then (k, v) ∷ (j, w) ∷ r else (j, w) ∷ rest

  unfoldable pub xa_erase : Xarray A → ℕ → Xarray A
  xa_erase [] k = []
  xa_erase ((j, w) ∷ r) k = let rest = xa_erase r k in if j == k then rest else (j, w) ∷ rest

  -- The indices ascend, from `lo` on.
  unfoldable pub IsSortedFrom : ℕ → Xarray A → Type 0
  IsSortedFrom lo [] = Unit
  IsSortedFrom lo ((k, v) ∷ r) = (lo ≤ k) × IsSortedFrom (k + 1) r

  pub xa_load-store :
      (x : Xarray A) (k j : ℕ) (v : A)
      → xa_load (xa_store x k v) j ≡ (if k == j then some v else xa_load x j)
  unfolding xa_load xa_store
  xa_load-store [] k j v = refl
  xa_load-store ((i, w) ∷ r) k j v = ground (arith, xa_load-store r k j v)

  pub xa_load-erase :
      (x : Xarray A) (k j : ℕ) → xa_load (xa_erase x k) j ≡ (if k == j then none else xa_load x j)
  unfolding xa_load xa_erase
  xa_load-erase [] k j = ground arith
  xa_load-erase ((i, w) ∷ r) k j = ground (arith, xa_load-erase r k j)

  pub xa_load_below :
      (lo : ℕ) (x : Xarray A) (k : ℕ) → IsSortedFrom lo x → k < lo → xa_load x k ≡ none
  unfolding xa_load IsSortedFrom
  xa_load_below lo [] k s h = refl
  xa_load_below lo ((i, w) ∷ r) k s h = ground (arith, xa_load_below (i + 1) r k)

  pub store-IsSortedFrom :
      (lo : ℕ) (x : Xarray A) (k : ℕ) (v : A)
      → IsSortedFrom lo x
      → lo ≤ k
      → IsSortedFrom lo (xa_store x k v)
  unfolding xa_store IsSortedFrom
  store-IsSortedFrom lo [] k v s h = (h, tt)
  store-IsSortedFrom lo ((i, w) ∷ r) k v s h = ground (arith, store-IsSortedFrom (i + 1) r k v)

  pub length-store_new :
      (x : Xarray A) (k : ℕ) (v : A) → xa_load x k ≡ none → length (xa_store x k v) ≡ length x + 1
  unfolding xa_load xa_store
  length-store_new [] k v h = refl
  length-store_new ((i, w) ∷ r) k v h = ground (arith, length-store_new r k v)
