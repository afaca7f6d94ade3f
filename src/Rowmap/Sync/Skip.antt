-- ===== src/Rowmap/Sync/Skip.antt =====
-- What the scans of a pass skip.
use native.Mathlib.Nat.{div-lt_iff_lt-mul, le-div_iff_mul-le, mul-le-mul_right}
use md_kmec.Base.{
  ℕ, zero, suc, ◌+◌, ◌-◌, ◌*◌, ◌/◌, ◌^◌, ◌≤◌, ◌<◌, ◌≡◌, ◌≢◌, refl, Bool, true, false, not, ◌&&◌,
  ◌||◌, arith, inl, inr, ◌⊎◌, ltb, leb, ◌==◌, if_rule, get_or, get_or-set, set, length, length-set,
  Bool-cases, ◌∙◌,
}
use md_kmec.Rowmap.Pack.{state_u, rows_per_page}
use md_kmec.Rowmap.State.{Rowmap, get, IsSized}
use md_kmec.Rowmap.Member.{Slots}
use md_kmec.Rowmap.Sync.{
  Pass, skippable, replacing, skip_run, skip_unwritten, scan, row_limit, min, skip_from,
}

module _ (pass : Pass) (rm : Rowmap) where
  skip_run-lem :
      (left r : ℕ)
      → let stop = skip_run pass rm left r in
        (r ≤ stop)
        × (stop ≤ r + left)
        × ((x : ℕ) → r ≤ x → x < stop → skippable pass (get rm x) ≡ true)
        × (stop < r + left → skippable pass (get rm stop) ≡ false)
  unfolding skip_run
  skip_run-lem zero r =
      (omega arith, omega arith, λ x lo hi. absurd (omega arith), λ h. absurd (omega arith))
  skip_run-lem (suc left) r =
      let (lo, hi, all, last) = skip_run-lem left (r + 1) in
      elim (Bool-cases (skippable pass (get rm r))) [
        | inl e ↦ rw e (
          omega arith,
          omega arith,
          λ x h k. elim (Bool-cases (r == x)) [
            | inl same ↦ ground arith
            | inr ne ↦ all x (ground arith) k
          ],
          λ h. last (omega arith),
        )
        | inr e ↦ rw e (omega arith, omega arith, λ x h k. absurd (omega arith), λ h. e)
      ]

-- The rows that a recovery marked.
abbrev pub is_skipped : Rowmap → ℕ → Bool
is_skipped rm r = get_or rm.rec_skipped r false

-- A recovery skips unwritten rows only, marks just these, and changes nothing else.
record Unwritten (r stop limit : ℕ) (rm rm' : Rowmap) : Type 0 where
  pub low : r ≤ stop
  pub high : stop ≤ limit
  pub unwritten : (x : ℕ) → r ≤ x → x < stop → get rm x ≡ state_u
  pub marks : (x : ℕ) → is_skipped rm' x ≡ ((leb r x && ltb x stop) || is_skipped rm x)
  pub last : stop < limit → get rm stop ≢ state_u
  pub same_states : (x : ℕ) → get rm' x ≡ get rm x

skip_unwritten-Unwritten :
    (left r : ℕ) (rm : Rowmap)
    → r + left ≤ length rm.rec_skipped
    → let (rm', stop) = skip_unwritten left r rm in Unwritten r stop (r + left) rm rm'
unfolding skip_unwritten get
skip_unwritten-Unwritten zero r rm room = record {
  low = omega arith;
  high = omega arith;
  unwritten = λ x h k. absurd (omega arith);
  marks = λ x. ground arith;
  last = λ h. absurd (omega arith);
  same_states = λ x. refl;
}
skip_unwritten-Unwritten (suc left) r rm room =
    let rm1 = record rm { rec_skipped = set rm.rec_skipped r true } in
    let rest =
      skip_unwritten-Unwritten left (r + 1) rm1 (omega (arith, length-set rm.rec_skipped r true)) in
    if_rule (λ (y : Rowmap × ℕ). Unwritten r y.1 (r + suc left) rm y.0) (get rm r == state_u)
      (λ e. record {
        low = omega (arith, rest.low);
        high = omega (arith, rest.high);
        unwritten = λ x h k. elim (Bool-cases (r == x)) [
          | inl same ↦ ground arith
          | inr ne ↦ rest.unwritten x (ground arith) k
        ];
        marks = λ x.
            ground (
              arith,
              rest.marks x,
              rest.low,
              get_or-set rm.rec_skipped r x true false (omega arith),
            );
        last = λ h. rest.last (omega arith);
        same_states = λ x. rest.same_states x;
      })
      (λ e. record {
        low = omega arith;
        high = omega arith;
        unwritten = λ x h k. absurd (omega arith);
        marks = λ x. ground arith;
        last = λ h. ground arith;
        same_states = λ x. refl;
      })

-- What a sector that is skipped is: one of an unwritten row, which a recovery marks, or in a check
-- also of a row that is not in sync.
abbrev pub MaySkip : Pass → Rowmap → ℕ → Type 0
MaySkip pass rm row =
    (row < rm.nrows)
    × (skippable pass (get rm row) ≡ true)
    × ((pass.sync ≡ true) ⊎ ((get rm row ≡ state_u) × (is_skipped rm row ≡ true)))

module _ (pass : Pass) (slots : Slots) (rm : Rowmap) (z : IsSized rm) where
  record Scanned (row stop lim : ℕ) (rm' : Rowmap) : Type 0 where
    pub low : row ≤ stop
    pub high : row < stop → stop ≤ lim
    pub skips : (x : ℕ) → row ≤ x → x < stop → MaySkip pass rm' x
    pub same : rm'.chunk_sectors ≡ rm.chunk_sectors

  skip_unwritten-frame :
      (left r : ℕ) (rm : Rowmap)
      → let rm' = (skip_unwritten left r rm).0 in
        (rm'.chunk_sectors ≡ rm.chunk_sectors) × (rm'.nrows ≡ rm.nrows)
  unfolding skip_unwritten
  skip_unwritten-frame zero r rm = (refl, refl)
  skip_unwritten-frame (suc left) r rm = ground (
    arith,
    skip_unwritten-frame left (r + 1) (record rm { rec_skipped = set rm.rec_skipped r true }),
  )

  scan-Scanned :
      (row lim : ℕ)
      → lim ≤ rm.nrows
      → let (rm', stop) = scan pass slots rm row lim in Scanned row stop lim rm'
  unfolding scan skippable
  scan-Scanned row lim inside =
      let none_left : (stop : ℕ) → stop ≡ row → Scanned row stop lim rm = λ stop e. record {
        low = omega arith;
        high = λ h. absurd (omega arith);
        skips = λ x h k. absurd (omega arith);
        same = refl;
      } in
      if_rule (λ (y : Rowmap × ℕ). Scanned row y.1 lim y.0) (not pass.sync)
        (λ rec.
          if_rule (λ (y : Rowmap × ℕ). Scanned row y.1 lim y.0) (replacing slots)
            (λ _. none_left row refl)
            (λ _.
              let left = min lim (row + rows_per_page) - row in
              elim (Bool-cases (left == 0)) [
                | inl e ↦
                    let e' : left ≡ 0 = ground arith in
                    rw e' (unfold skip_unwritten in none_left row refl)
                | inr ne ↦
                    let got =
                      skip_unwritten-Unwritten left row rm (ground (arith, z.skipped_size)) in
                    let frame = skip_unwritten-frame left row rm in
                    record {
                      low = got.low;
                      high = λ h. ground (arith, got.high);
                      skips = λ x h k.
                          let u = got.same_states x ∙ got.unwritten x h k in
                          (
                            ground (arith, got.high, frame),
                            ground (arith),
                            inr (u, ground (arith, got.marks x)),
                          );
                      same = frame.0;
                    }
              ]))
        (λ res.
          let left = min lim (row + 2 ^ 20) - row in
          let got = skip_run-lem pass rm left row in
          record {
            low = got.0;
            high = λ h. ground (arith, got.1);
            skips = λ x h k.
                (ground (arith, got.1), unfold skippable in got.2 x h k, inl (ground arith));
            same = refl;
          })

  module _ (pos : 0 < rm.chunk_sectors) (cap : rm.nrows * rm.chunk_sectors < 2 ^ 64) where
    abbrev cs : ℕ
    cs = rm.chunk_sectors

    -- The sectors that `raidkm_rowmap_sync_skip` lets a pass skip, from its scan on, are sectors of
    -- rows that are unwritten, or in a check not in sync; a recovery skips unwritten rows only, and
    -- has marked them. The pass is within its end, and the sectors of the rows fit 64 bits.
    pub skip_from-MaySkip :
        (sector_nr max_sector s : ℕ)
        → sector_nr ≤ max_sector
        → sector_nr ≤ s
        → s < sector_nr + (skip_from pass slots rm sector_nr max_sector).1
        → MaySkip pass (skip_from pass slots rm sector_nr max_sector).0 (s / rm.chunk_sectors)
    unfolding skip_from get
    skip_from-MaySkip sector_nr max_sector s below =
        let row = sector_nr / cs in
        let lim = row_limit rm max_sector in
        let got = scan-Scanned row lim (ground arith) in
        let out = scan pass slots rm row lim in
        if_rule Fine (out.1 == row) (λ e lo hi. absurd (omega arith))
          (λ moved lo hi.
            let stop = out.1 in
            let cap' : stop * cs ≤ rm.nrows * cs =
              mul-le-mul_right cs (ground (arith, got.low, got.high)) in
            let start : row ≤ s / cs = ground (
              arith,
              le-div_iff_mul-le {k = cs} {x = row} {y = s} pos,
              le-div_iff_mul-le {k = cs} {x = row} {y = sector_nr} pos,
            ) in
            let first : sector_nr < (row + 1) * cs =
              (div-lt_iff_lt-mul {k = cs} {x = sector_nr} {y = row + 1} pos).0 (omega arith) in
            let all : (row + 1) * cs ≤ stop * cs = mul-le-mul_right cs (ground (arith, got.low)) in
            let past : s < stop * cs = ground arith in
            let end : s / cs < stop = (div-lt_iff_lt-mul {k = cs} {x = s} {y = stop} pos).1 past in
            unfold get in got.skips (s / cs) start end)
      where
        Fine : Rowmap × ℕ → Type 0
        Fine y = sector_nr ≤ s → s < sector_nr + y.1 → MaySkip pass y.0 (s / rm.chunk_sectors)
