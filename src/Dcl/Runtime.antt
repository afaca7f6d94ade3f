-- ===== src/Dcl/Runtime.antt =====
-- km/raid_km.c, the walks of the I/O path over the spare assignments: `raidkm_dcl_redirect` and
-- `raidkm_dcl_chain_root`, which a self-test compares with those of km/raid_km_dcl.h.
pub mod Core
use md_kmec.Base.{
  ℕ, zero, suc, ◌+◌, ◌-◌, ◌*◌, ◌^◌, List, [], ◌∷◌, Bool, true, false, not, ◌&&◌, ◌||◌, Option, none,
  some, length, u32, u64, ltb, leb, ◌==◌, if◌then◌else◌,
}
use md_kmec.Dcl.Geom.{Geom}
use md_kmec.Dcl.Map.{gcols, disk, lcol}
use md_kmec.Dcl.Chain.{Assign}

-- RKDCL_ASSIGN_*.
pub data RebState : Type 0 where
  idle populating populated copying : RebState

-- An entry of `conf->reb`.
pub record Reb : Type 0 where
  pub disk : ℕ
  pub spare : ℕ
  pub state : RebState

-- `for (i = 0; i < nreb; i++) if (conf->reb[i].disk == disk) break;`
unfoldable pub find_reb : List Reb → ℕ → Option Reb
find_reb [] x = none
find_reb (r ∷ reb) x = if r.disk == x then some r else find_reb reb x

-- The same for `conf->reb[i].spare == j`.
unfoldable pub find_reb_spare : List Reb → ℕ → Option Reb
find_reb_spare [] j = none
find_reb_spare (r ∷ reb) j = if r.spare == j then some r else find_reb_spare reb j

-- `to_spare`, from the state of the entry; `mark` is `reb_mark`, in sectors.
unfoldable pub to_spare : RebState → ℕ → ℕ → Bool → ℕ → Bool
to_spare populated chunk_sectors mark for_write row = true
to_spare populating chunk_sectors mark for_write row =
    for_write || leb (u64 ((row + 1) * chunk_sectors)) mark
to_spare copying chunk_sectors mark for_write row = ltb mark (u64 ((row + 1) * chunk_sectors))
to_spare idle chunk_sectors mark for_write row = false

module _ (ge : Geom) (reb : List Reb) (chunk_sectors mark row : ℕ) (for_write : Bool) where
  -- The loop over `hops`, at the disk `x`.
  unfoldable pub redirect_from : ℕ → ℕ → ℕ
  redirect_from zero x = x
  redirect_from (suc left) x = elim (find_reb reb x) [
    | none ↦ x
    | some r ↦
        let hop = redirect_from left (disk ge row (u32 (gcols ge + r.spare))) in
        if not (to_spare r.state chunk_sectors mark for_write row) then x else hop
  ]

  unfoldable pub redirect : ℕ → ℕ
  redirect x = if length reb == 0 then x else redirect_from (length reb + 1) x

module _ (ge : Geom) (reb : List Reb) (row : ℕ) where
  unfoldable pub runtime_root_from : ℕ → ℕ → Option ℕ
  runtime_root_from zero x = none
  runtime_root_from (suc left) x =
      let c = lcol ge row x in
      let back : Option ℕ = elim (find_reb_spare reb (u32 (c + 2 ^ 32 - gcols ge))) [
        | none ↦ none
        | some r ↦ runtime_root_from left r.disk
      ] in
      if ltb c (gcols ge) then some c else back

  -- `raidkm_dcl_chain_root`; none is -1.
  unfoldable pub runtime_root : ℕ → Option ℕ
  runtime_root x = runtime_root_from (length reb + 1) x
