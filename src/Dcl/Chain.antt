-- ===== src/Dcl/Chain.antt =====
-- km/raid_km_dcl.h, the chained resolve: `struct dcl_assign`, `dcl_resolve`,
-- `dcl_chain_traverses` and `dcl_chain_root`. `nas` is the length of the list of assignments.
pub mod Walk
pub mod Resolve
pub mod Root
use md_kmec.Base.{
  ℕ, zero, suc, ◌+◌, ◌-◌, ◌^◌, List, [], ◌∷◌, Bool, true, false, Option, none, some, at, length,
  u32, ltb, leb, ◌==◌, if◌then◌else◌,
}
use md_kmec.Dcl.Geom.{Geom}
use md_kmec.Dcl.Map.{gcols, disk, lcol}

-- The failed disk and the spare column that stands in for it.
pub record Assign : Type 0 where
  pub disk : ℕ
  pub spare : ℕ

-- `for (i = 0; i < nas; i++) if (as[i].disk == disk) break;` from index `i` on: the index with its
-- entry, or `none` for `i == nas`.
unfoldable pub find_disk : List Assign → ℕ → ℕ → Option (ℕ × Assign)
find_disk [] x i = none
find_disk (a ∷ asn) x i = if a.disk == x then some (i, a) else find_disk asn x (suc i)

-- The same for `as[i].spare == j`.
unfoldable pub find_spare : List Assign → ℕ → ℕ → Option (ℕ × Assign)
find_spare [] j i = none
find_spare (a ∷ asn) j i = if a.spare == j then some (i, a) else find_spare asn j (suc i)

-- The column of an assignment's spare.
abbrev pub spare_col : Geom → Assign → ℕ
spare_col ge a = u32 (gcols ge + a.spare)

-- What a resolve returns: the disk, and `*dead`.
pub record Endpoint : Type 0 where
  pub disk : ℕ
  pub dead : Bool

module _ (ge : Geom) (asn : List Assign) (mark : List ℕ) (row : ℕ) where
  -- The loop over `hops` with `left` rounds left, standing at column `c` on disk `x`.
  unfoldable pub resolve_from : ℕ → ℕ → ℕ → Endpoint
  resolve_from zero c x = record { disk = x; dead = true }
  resolve_from (suc left) c x = elim (find_disk asn x 0) [
    | none ↦ record { disk = x; dead = false }
    | some (i, a) ↦
        let nlcol = spare_col ge a in
        let hop = resolve_from left nlcol (disk ge row nlcol) in
        if leb (at mark i) row
        then record { disk = x; dead = true }
        else if nlcol == c
        then record { disk = x; dead = true }
        else hop
  ]

  unfoldable pub resolve : ℕ → Endpoint
  unfolding resolve_from find_disk
  resolve c = resolve_from (length asn + 1) c (disk ge row c)

module _ (ge : Geom) (asn : List Assign) (row : ℕ) (target : ℕ) where
  pub traverses_from : ℕ → ℕ → ℕ → Bool
  traverses_from zero c x = false
  traverses_from (suc left) c x =
      let next : Bool = elim (find_disk asn x 0) [
        | none ↦ false
        | some (i, a) ↦
            let nlcol = spare_col ge a in
            let hop = traverses_from left nlcol (disk ge row nlcol) in
            if nlcol == c then false else hop
      ] in
      if x == target then true else next

  -- Does the write chain of column `c` pass through the disk `target`?
  unfoldable pub chain_traverses : ℕ → Bool
  unfolding traverses_from find_disk
  chain_traverses c = traverses_from (length asn + 1) c (disk ge row c)

module _ (ge : Geom) (asn : List Assign) (row : ℕ) where
  unfoldable pub root_from : ℕ → ℕ → Option ℕ
  root_from zero x = none
  root_from (suc left) x =
      let c = lcol ge row x in
      let back : Option ℕ = elim (find_spare asn (u32 (c + 2 ^ 32 - gcols ge)) 0) [
        | none ↦ none
        | some (i, a) ↦ root_from left a.disk
      ] in
      if ltb c (gcols ge) then some c else back

  -- The group column whose write chain passes through the disk; `none` is -1.
  unfoldable pub chain_root : ℕ → Option ℕ
  unfolding root_from find_spare
  chain_root x = root_from (length asn + 1) x
