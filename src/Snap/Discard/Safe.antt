-- ===== src/Snap/Discard/Safe.antt =====
-- What a discard of the origin trims: `rk_snap_discard` of km/raid_km-snap.c.
use md_kmec.Base.{
  ℕ, zero, suc, ◌+◌, ◌-◌, ◌*◌, ◌/◌, ◌<◌, ◌≤◌, ◌≡◌, refl, subst, ap, ◌∙◌, Bool, true, false, not,
  ◌||◌, Option, none, some, ltb, leb, ◌==◌, if_rule, arith, Bool-cases, inl, inr, div_bounds,
  add_mul, mul_mono, ℕ_discrete,
}
use md_kmec.Snap.Origin.{origin}
use md_kmec.Snap.State.{shared}
use md_kmec.Snap.Bio.{Bio, Io, go, Result, end_of, front, back, busy_find}
use md_kmec.Snap.Discard.{
  min, breaks, run_rows, drop_or_pass, cut_run, discard_idle, discard_busy, discard, same_bool,
  is_busy, wait_or_again, discard_from, discard_rows, max_sectors,
}

run_rows_lem :
    (io : Io) (row : ℕ) (sh : Bool) (phys k n : ℕ)
    → (n ≤ run_rows io row sh phys k n) × (run_rows io row sh phys k n ≤ n + k)
unfolding run_rows
run_rows_lem io row sh phys zero n = omega arith
run_rows_lem io row sh phys (suc k) n = ground (arith, run_rows_lem io row sh phys k (n + 1))

run_rows_whole :
    (io : Io) (row : ℕ) (sh : Bool) (phys k n j : ℕ)
    → n ≤ j
    → j < run_rows io row sh phys k n
    → breaks io row sh phys j ≡ false
unfolding run_rows
run_rows_whole io row sh phys zero n j lo hi = absurd (omega arith)
run_rows_whole io row sh phys (suc k) n j lo hi = elim (Bool-cases (breaks io row sh phys n)) [
  | inl e ↦ let f = rw e at hi in absurd (omega (arith, f))
  | inr e ↦
      let f = rw e at hi in
      elim (ℕ_discrete n j) [
        | yes q ↦ rw (← q) e
        | no q ↦ run_rows_whole io row sh phys k (n + 1) j (omega arith) f
      ]
]

or_false : (a b : Bool) → (a || b) ≡ false → (a ≡ false) × (b ≡ false)
or_false true b e = absurd (cc e)
or_false false b e = (refl, e)

same_false : (s : Bool) → not (same_bool s false) ≡ false → s ≡ false
same_false true e = absurd (cc e)
same_false false e = refl

-- A row that continues a run of rows that are not shared.
unbroken :
    (io : Io) (row phys j : ℕ)
    → breaks io row false phys j ≡ false
    → (shared io.sn (row + j) ≡ false) × (origin io.sn.odir (row + j) ≡ phys + j)
unbroken io row phys j e =
    let (left, mapped) = or_false _ _ e in
    let (idle, unshared) = or_false (is_busy io (row + j)) _ left in
    (same_false (shared io.sn (row + j)) unshared, at_next mapped)
  where
    at_next :
        not (origin io.sn.odir (row + j) == phys + j) ≡ false
        → origin io.sn.odir (row + j) ≡ phys + j
    at_next h = ground arith

-- The bio trims `n` rows of the origin from `row` on, in consecutive physical rows, and the newest
-- snapshot shares none of them.
pub record Trims (io : Io) (b : Bio) : Type 0 where
  pub row : ℕ
  pub n : ℕ
  pub phys : ℕ
  pub inside : row + n ≤ io.sn.origin_rows
  pub starts : b.sector ≡ phys * io.sn.row_sectors
  pub covers : b.sectors ≡ n * io.sn.row_sectors
  pub each :
      (j : ℕ) → j < n → (shared io.sn (row + j) ≡ false) × (origin io.sn.odir (row + j) ≡ phys + j)

abbrev AllTrim : Io → Result → Type 0
AllTrim io r = (b : Bio) → r.outcome ≡ go b → Trims io b

cut_run_trims :
    (io : Io) (can_split : Bool) (now : Io) (row n : ℕ) (b : Bio) (next : Bio → Result)
    → AllTrim io (next (front b ((row + n) * now.sn.row_sectors - b.sector)))
    → (end_of b ≤ (row + n) * now.sn.row_sectors → AllTrim io (next b))
    → AllTrim io (cut_run can_split now row n b next)
unfolding cut_run
cut_run_trims io can_split now row n b next cut whole =
    let stop = (row + n) * now.sn.row_sectors in
    if_rule (AllTrim io) (ltb stop (end_of b))
      (λ _. if_rule (AllTrim io) can_split (λ _. cut) (λ _ b' e. absurd (cc e)))
      (λ u. whole (ground (arith, u)))

drop_trims : (io : Io) (phys n : ℕ) (b : Bio) → AllTrim io (drop_or_pass io true phys n b)
unfolding drop_or_pass
drop_trims io phys n b b' e = absurd (cc e)

again_trims : (io later : Io) (b : Bio) (o : Option ℕ) → AllTrim io (wait_or_again later b o)
again_trims io later b none b' e = absurd (cc e)
again_trims io later b (some i) b' e = absurd (cc e)

module _ (io : Io) (row row_end cap : ℕ) (b : Bio) (pos : 0 < io.sn.row_sectors)
    (aligned : b.sector ≡ row * io.sn.row_sectors) (some_rows : row < row_end)
    (inside : row_end ≤ io.sn.origin_rows) (fits : row_end * io.sn.row_sectors ≤ end_of b)
    (capped : cap ≤ row_end - row) where
  abbrev place : ℕ
  place = origin io.sn.odir row

  each_row :
      (n j : ℕ)
      → shared io.sn row ≡ false
      → n ≡ run_rows io row false place (cap - 1) 1
      → j < n
      → (shared io.sn (row + j) ≡ false) × (origin io.sn.odir (row + j) ≡ place + j)
  each_row n zero first count lt =
      let same : row + 0 ≡ row = omega arith in
      (ap (shared io.sn) same ∙ first, ap (origin io.sn.odir) same ∙ omega arith)
  each_row n (suc j) first count lt = unbroken io row place (suc j) (
      run_rows_whole io row false place (cap - 1) 1 (suc j) (omega arith)
        (omega (arith, count, lt)))

  -- The run found, in a bio cut to it.
  run_trims :
      (n : ℕ) (f : Bio)
      → shared io.sn row ≡ false
      → n ≡ run_rows io row false place (cap - 1) 1
      → f.sectors ≡ n * io.sn.row_sectors
      → AllTrim io (drop_or_pass io false place n f)
  unfolding drop_or_pass
  run_trims n f first count size b' e =
      let (lo, hi) = run_rows_lem io row false place (cap - 1) 1 in
      let q : record f { sector = place * io.sn.row_sectors; remapped = true } ≡ b' = cc e in
      subst (Trims io) q (record {
        row = row;
        n = n;
        phys = place;
        inside = omega (arith, count, lo, hi, capped, inside, some_rows);
        starts = refl;
        covers = size;
        each = λ j lt. each_row n j first count lt;
      })

  discard_idle_trims : (can_split : Bool) → AllTrim io (discard_idle can_split io row cap b)
  unfolding discard_idle
  discard_idle_trims can_split = elim (Bool-cases (shared io.sn row)) [
    | inl t ↦
        let n = run_rows io row true place (cap - 1) 1 in
        rw t (
          cut_run_trims io can_split io row n b (drop_or_pass io true place n)
            (drop_trims io place n (front b ((row + n) * io.sn.row_sectors - b.sector)))
            (λ _. drop_trims io place n b))
    | inr t ↦
        let n = run_rows io row false place (cap - 1) 1 in
        let rs = io.sn.row_sectors in
        let bounds = run_rows_lem io row false place (cap - 1) 1 in
        rw t (
          cut_run_trims io can_split io row n b (drop_or_pass io false place n)
            (run_trims n (front b ((row + n) * rs - b.sector)) t refl
              (omega (arith, aligned, add_mul row n rs)))
            (λ u. run_trims n b t refl (
              omega (
                arith,
                u,
                aligned,
                add_mul row n rs,
                fits,
                mul_mono (row + n) row_end rs (omega (arith, bounds, capped, some_rows)),
              ))))
  ]

  discard_busy_trims :
      (can_split : Bool) (later : Io) (i : ℕ) → AllTrim io (discard_busy can_split io later row b i)
  unfolding discard_busy
  discard_busy_trims can_split later i =
      if_rule (AllTrim io) (ltb ((row + 1) * io.sn.row_sectors) (end_of b))
        (λ _.
          cut_run_trims io can_split later row 1 b
            (λ f. wait_or_again later f (busy_find later row))
            (again_trims io later (front b ((row + 1) * later.sn.row_sectors - b.sector))
              (busy_find later row))
            (λ _. again_trims io later b (busy_find later row)))
        (λ _ b' e. absurd (cc e))

  discard_from_trims :
      (can_split : Bool) (later : Io) (o : Option ℕ)
      → AllTrim io (discard_from can_split io later row cap b o)
  discard_from_trims can_split later none = discard_idle_trims can_split
  discard_from_trims can_split later (some i) = discard_busy_trims can_split later i

min_le : (a b : ℕ) → (min a b ≤ a) × (min a b ≤ b)
min_le a b = ground arith

-- `rk_snap_discard`, past its first tests.
discard_rows_trims :
    (can_split : Bool) (io later : Io) (row row_end : ℕ) (b : Bio)
    → 0 < io.sn.row_sectors
    → b.sector ≡ row * io.sn.row_sectors
    → row < row_end
    → row_end ≤ io.sn.origin_rows
    → row_end * io.sn.row_sectors ≤ end_of b
    → AllTrim io (discard_rows can_split io later row row_end b)
discard_rows_trims can_split io later row row_end b pos aligned lt inside fits =
    let cap = min (row_end - row) (min 512 (max_sectors / io.sn.row_sectors)) in
    discard_from_trims io row row_end cap b pos aligned lt inside fits
      (min_le (row_end - row) (min 512 (max_sectors / io.sn.row_sectors))).0 can_split later
      (busy_find io row)

-- A discard trims whole rows of the origin that the newest snapshot does not share, and only those.
pub discard-Trims :
    (can_front can_split : Bool) (io later : Io) (b b' : Bio)
    → 0 < io.sn.row_sectors
    → (discard can_front can_split io later b).outcome ≡ go b'
    → Trims io b'
unfolding discard
discard-Trims can_front can_split io later b b' pos =
    let rs = io.sn.row_sectors in
    let row = (b.sector + rs - 1) / rs in
    let row_end = min (end_of b / rs) io.sn.origin_rows in
    let lead = row * rs - b.sector in
    let up = div_bounds (b.sector + rs - 1) rs pos in
    let down = div_bounds (end_of b) rs pos in
    let ends = min_le (end_of b / rs) io.sn.origin_rows in
    let last = mul_mono row_end (end_of b / rs) rs ends.0 in
    if_rule Passes (leb row_end row) (λ _ e. absurd (cc e))
      (λ t.
        if_rule Passes (ltb b.sector (row * rs))
          (λ _.
            if_rule Passes can_front
              (λ _ e.
                discard_rows_trims can_split io later row row_end (back b lead) pos
                  (omega (arith, up)) (ground (arith, t)) ends.1
                  (omega (arith, last, down, mul_mono row row_end rs (ground (arith, t)))) b' e)
              (λ _ e. absurd (cc e)))
          (λ u e.
            discard_rows_trims can_split io later row row_end b pos (ground (arith, u, up))
              (ground (arith, t)) ends.1 (omega (arith, last, down)) b' e))
  where
    Passes : Result → Type 0
    Passes r = r.outcome ≡ go b' → Trims io b'
