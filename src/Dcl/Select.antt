-- ===== src/Dcl/Select.antt =====
-- km/raid_km.c, the choice of the map during a declustered reshape: `raidkm_dcl_backward`,
-- `raidkm_dcl_geom_for_row`, `raidkm_dcl_geom_for_chunk`, and `raidkm_dcl_test_reshape`, the self-test
-- that compares them.
pub mod Agree
use md_kmec.Base.{
  ℕ, zero, suc, ◌+◌, ◌*◌, ◌/◌, ◌^◌, Bool, true, false, not, ◌&&◌, ◌||◌, Option, none, some, u32,
  u64, ltb, leb, if◌then◌else◌,
}
use md_kmec.Dcl.Geom.{Geom}
use md_kmec.Dcl.Map.{forward}

-- The maps of `struct r5conf`, where the previous one is there during a reshape, and the frontier.
pub record Maps : Type 0 where
  pub dcl : Geom
  pub prev : Option Geom
  pub frontier : ℕ

-- Which of the two maps: what the code compares as pointers.
pub data Chosen : Type 0 where
  current previous : Chosen

abbrev pub span : Geom → ℕ
span ge = u32 (ge.ngroups * ge.k)

unfoldable pub backward : Geom → Geom → Bool
backward oge nge = ltb (span nge) (span oge)

-- The choice for a row: of the previous map or of the new one.
unfoldable pub choose_row : Geom → Maps → ℕ → Chosen
choose_row prev conf row =
    if backward prev conf.dcl
    then (if ltb row conf.frontier then previous else current)
    else if leb conf.frontier row
    then previous
    else current

-- The choice for a chunk, by its row in the new map.
unfoldable pub choose_chunk : Geom → Maps → ℕ → Chosen
choose_chunk prev conf chunk =
    let nrow = chunk / span conf.dcl in
    if backward prev conf.dcl
    then (if ltb nrow conf.frontier then previous else current)
    else if leb conf.frontier nrow
    then previous
    else current

-- `raidkm_dcl_geom_for_row`.
unfoldable pub geom_for_row : Maps → ℕ → Chosen
geom_for_row conf row = elim conf.prev [ none ↦ current | some prev ↦ choose_row prev conf row ]

-- `raidkm_dcl_geom_for_chunk`.
unfoldable pub geom_for_chunk : Maps → ℕ → Chosen
geom_for_chunk conf chunk = elim conf.prev [
  | none ↦ current
  | some prev ↦ choose_chunk prev conf chunk
]

-- The map that was chosen.
abbrev pub chosen_geom : Geom → Geom → Chosen → Geom
chosen_geom prev dcl current = dcl
chosen_geom prev dcl previous = prev

abbrev pub is_current : Chosen → Bool
is_current current = true
is_current previous = false

abbrev pub same_choice : Chosen → Chosen → Bool
same_choice current c = is_current c
same_choice previous c = not (is_current c)

-- 0, and -1 and -2 with the chunk.
pub data TestResult : Type 0 where
  passed : TestResult
  wrong_side split : ℕ → TestResult

module _ (prev dcl : Geom) (frontier : ℕ) where
  abbrev conf : Maps
  conf = record { dcl = dcl; prev = some prev; frontier = frontier }

  -- The loop over the chunks from `c` on.
  unfoldable pub test_from : ℕ → ℕ → TestResult
  test_from zero c = passed
  test_from (suc left) c =
      let gc = geom_for_chunk conf c in
      let nrow = c / span dcl in
      let migrated = if backward prev dcl then leb frontier nrow else ltb nrow frontier in
      let row = (forward (chosen_geom prev dcl gc) c).row in
      let rest = test_from left (c + 1) in
      if not (if is_current gc then migrated else not migrated)
      then wrong_side c
      else if not (same_choice (geom_for_row conf row) gc)
      then split c
      else rest

  -- `raidkm_dcl_test_reshape` over the rows of the previous map.
  unfoldable pub test_reshape : ℕ → TestResult
  test_reshape old_rows = test_from (u64 (u64 (old_rows * prev.ngroups) * prev.k)) 0
