-- ===== src/Base/Update.antt =====
-- A bitmap or a store of rows as a function, changed at one place.
use Prim.Native.Nat.{ℕ}
use md_kmec.Base.Tests.{◌==◌, if◌then◌else◌}

abbrev pub update {ℓ} : {A : Type ℓ} → (ℕ → A) → ℕ → A → ℕ → A
update f k v j = if k == j then v else f j
