-- ===== src/Dcl/Select/Agree.antt =====
-- The two choices agree, for any two maps and any frontier.
use native.Mathlib.Nat.{le-div_iff_mul-le, mul-le-mul_left, mul-le-mul_right, div-add-mod'}
use md_kmec.Base.{
  ℕ, zero, suc, ◌+◌, ◌*◌, ◌/◌, ◌≤◌, ◌<◌, ◌≡◌, refl, sym, ap, ◌∙◌, Bool, true, not, some, u64, ltb,
  leb, if◌then◌else◌, if_rule, arith,
}
use md_kmec.Dcl.Geom.{Geom, IsGeom}
use md_kmec.Dcl.Map.{forward}
use md_kmec.Dcl.Select.{
  Maps, Chosen, current, previous, span, backward, choose_row, choose_chunk, geom_for_row,
  geom_for_chunk, chosen_geom, is_current, same_choice, passed, test_from, test_reshape,
}

-- A row has data columns, and a small number of them.
span-eq :
    {ge : Geom}
    → IsGeom ge
    → (span ge ≡ ge.ngroups * ge.k) × (0 < span ge) × (u64 (ge.ngroups * ge.k) ≡ span ge)
span-eq {ge} v =
    let small : ge.ngroups * ge.k ≤ ge.ngroups * ge.g =
      mul-le-mul_left ge.ngroups (omega (arith, v.width)) in
    let some_data : 1 * ge.k ≤ ge.ngroups * ge.k = mul-le-mul_right ge.k v.groups_pos in
    omega (arith, small, some_data, v.columns, v.pool_max, v.data_pos)

row_of-forward : {ge : Geom} → IsGeom ge → (c : ℕ) → (forward ge c).row ≡ c / span ge
unfolding forward
row_of-forward v c = ap (λ n. c / n) ((span-eq v).2)

-- A map with more data in a row puts a chunk in no later row.
div_antitone : (c a b : ℕ) → 0 < b → b ≤ a → c / a ≤ c / b
div_antitone c a b pos le =
    let rows : c / a * b ≤ c / a * a = mul-le-mul_left (c / a) le in
    (le-div_iff_mul-le {k = b} {x = c / a} {y = c} pos).1 (omega (arith, rows, div-add-mod' c a))

module _ {prev dcl : Geom} (v : IsGeom prev) (w : IsGeom dcl) (frontier : ℕ) where
  abbrev maps : Maps
  maps = record { dcl = dcl; prev = some prev; frontier = frontier }

  stays_previous :
      (nrow orow : ℕ)
      → (span dcl < span prev → orow ≤ nrow)
      → (span prev ≤ span dcl → nrow ≤ orow)
      → choose_row prev maps nrow ≡ previous
      → choose_row prev maps orow ≡ previous
  unfolding choose_row backward
  stays_previous nrow orow back ahead e = ground arith

  -- The two copies of the rule are one.
  chunk_by_row : (c : ℕ) → choose_chunk prev maps c ≡ choose_row prev maps (c / span dcl)
  unfolding choose_chunk choose_row
  chunk_by_row c = refl

  -- The row where the map that `raidkm_dcl_geom_for_chunk` chooses for a chunk puts the chunk is a
  -- row of that same map for `raidkm_dcl_geom_for_row`: in both directions of a reshape and at every
  -- frontier, no chunk is addressed by one map and looked up by the other.
  pub geom_for_row-geom_for_chunk :
      (c : ℕ)
      → geom_for_row maps (forward (chosen_geom prev dcl (geom_for_chunk maps c)) c).row
        ≡ geom_for_chunk maps c
  unfolding geom_for_row geom_for_chunk
  geom_for_row-geom_for_chunk c = settle (choose_chunk prev maps c) (sym (chunk_by_row c))
    where
      settle :
          (side : Chosen)
          → choose_row prev maps (c / span dcl) ≡ side
          → choose_row prev maps (forward (chosen_geom prev dcl side) c).row ≡ side
      settle current e = ap (choose_row prev maps) (row_of-forward w c) ∙ e
      settle previous e =
          ap (choose_row prev maps) (row_of-forward v c)
          ∙ stays_previous (c / span dcl) (c / span prev)
              (λ back. div_antitone c (span prev) (span dcl) (span-eq w).1 (omega arith))
              (λ ahead. div_antitone c (span dcl) (span prev) (span-eq v).1 ahead) e

  same-true : (x y : Chosen) → x ≡ y → same_choice x y ≡ true
  same-true current current e = refl
  same-true previous previous e = refl
  same-true current previous e = absurd (cc e)
  same-true previous current e = absurd (cc e)

  abbrev migrated : ℕ → Bool
  migrated c =
      if backward prev dcl then leb frontier (c / span dcl) else ltb (c / span dcl) frontier

  -- The choice for a chunk is the frontier rule.
  right_side :
      (c : ℕ) → (if is_current (geom_for_chunk maps c) then migrated c else not (migrated c)) ≡ true
  unfolding geom_for_chunk choose_chunk
  right_side c =
      let row = c / span dcl in
      if_rule (λ x. (if is_current x then migrated c else not (migrated c)) ≡ true)
        (backward prev dcl)
        (λ b.
          if_rule (λ x. (if is_current x then migrated c else not (migrated c)) ≡ true)
            (ltb row frontier) (λ l. ground arith) (λ l. ground arith))
        (λ b.
          if_rule (λ x. (if is_current x then migrated c else not (migrated c)) ≡ true)
            (leb frontier row) (λ l. ground arith) (λ l. ground arith))

  test_from-passed : (left c : ℕ) → test_from prev dcl frontier left c ≡ passed
  unfolding test_from
  test_from-passed zero c = refl
  test_from-passed (suc left) c =
      rw
        (
          right_side c,
          same-true
              (geom_for_row maps (forward (chosen_geom prev dcl (geom_for_chunk maps c)) c).row)
              (geom_for_chunk maps c) (geom_for_row-geom_for_chunk c),
          test_from,
        )
        (test_from-passed left (c + 1))

  -- `raidkm_dcl_test_reshape` passes, whatever the two maps, the frontier and the number of rows are.
  pub test_reshape-passed : (old_rows : ℕ) → test_reshape prev dcl frontier old_rows ≡ passed
  unfolding test_reshape
  test_reshape-passed old_rows = test_from-passed (u64 (u64 (old_rows * prev.ngroups) * prev.k)) 0
