-- ===== src/Dcl/Window/Prefix.antt =====
-- The mark of a population is the end of the solid prefix of what is done.
use native.Mathlib.Nat.{mod-lt, div-add-mod', mul-le-mul_right, mod-eq-sub-mod}
use md_kmec.Base.{
  ℕ, zero, suc, ◌+◌, ◌-◌, ◌*◌, ◌/◌, ◌%◌, ◌^◌, ◌≤◌, ◌<◌, ◌≡◌, ◌≢◌, ◌⊎◌, inl, inr, refl, sym, ap, ◌∙◌,
  Bool, true, false, ◌||◌, set, get_or, length, u64, ltb, leb, ◌==◌, if_rule, arith, ℕ_discrete,
  dec_lt, subst, get_or-set, get_or-set_ne, length-set,
}
use md_kmec.Dcl.Window.{Window, bit, advance, pop_done}

-- Two granules of one window have different bits.
mod-ne : (n base x y : ℕ) → 0 < n → base ≤ x → x < y → y < base + n → x % n ≢ y % n
mod-ne n base x y pos lo lt hi e =
    let px = div-add-mod' x n in
    let py = div-add-mod' y n in
    elim (dec_lt (x / n) (y / n)) [
      | yes later ↦
          let rounds : (x / n + 1) * n ≤ y / n * n = mul-le-mul_right n (omega arith) in
          absurd (omega (arith, rounds, px, py, e))
      | no same ↦
          let rounds : y / n * n ≤ x / n * n = mul-le-mul_right n (omega arith) in
          absurd (omega (arith, rounds, px, py, e))
    ]

-- The bits of the window are those of what is done, and all before the window is done.
pub record IsPrefix (done : ℕ → Bool) (w : Window) : Type 0 where
  pub size_pos : 0 < w.size
  pub room : length w.bits ≡ w.size
  pub before : (x : ℕ) → x < w.base → done x ≡ true
  pub inside : (x : ℕ) → w.base ≤ x → x < w.base + w.size → bit w x ≡ done x
  pub beyond : (x : ℕ) → w.base + w.size ≤ x → done x ≡ false

module _ (done : ℕ → Bool) where
  -- One round of the loop.
  round :
      (w : Window)
      → IsPrefix done w
      → w.base + 1 < 2 ^ 64
      → bit w w.base ≡ true
      → IsPrefix done
          (record w { bits = set w.bits (w.base % w.size) false; base = u64 (w.base + 1) })
  round w p room here =
      let b = w.base in
      let slot = b % w.size in
      let slot-lt : slot < length w.bits =
        omega (arith, p.room, mod-lt b {m = w.size} p.size_pos) in
      let next : u64 (b + 1) ≡ b + 1 = omega arith in
      let at_base : done b ≡ true =
        sym (p.inside b (omega arith) (omega (arith, p.size_pos))) ∙ here in
      rw next (record {
        size_pos = p.size_pos;
        room = length-set w.bits slot false ∙ p.room;
        before = λ x h. elim (ℕ_discrete b x) [
          | yes e ↦ subst (λ x. done x ≡ true) e at_base
          | no ne ↦ p.before x (omega arith)
        ];
        inside = λ x lo hi. elim (dec_lt x (b + w.size)) [
          | yes below ↦
              get_or-set_ne w.bits slot (x % w.size) false false
                (mod-ne w.size b b x p.size_pos (omega arith) (omega arith) below)
              ∙ p.inside x (omega arith) below
          | no past ↦
              let at_end : x ≡ b + w.size = omega arith in
              let back : x - w.size ≡ b = omega arith in
              let wraps : x % w.size ≡ slot =
                mod-eq-sub-mod {n = x} {m = w.size} (omega arith) ∙ ap (λ y. y % w.size) back in
              ap (λ i. get_or (set w.bits slot false) i false) wraps
              ∙ ground
                  (arith, get_or-set w.bits slot slot false false slot-lt, p.beyond x (omega arith))
        ];
        beyond = λ x h. p.beyond x (omega arith);
      })

  advance-IsPrefix :
      (left : ℕ) (w : Window)
      → IsPrefix done w
      → w.base + left < 2 ^ 64
      → ((x : ℕ) → w.base + left ≤ x → done x ≡ false)
      → IsPrefix done (advance left w) × (done (advance left w).base ≡ false)
  unfolding advance
  advance-IsPrefix zero w p room end = (p, end w.base (omega arith))
  advance-IsPrefix (suc left) w p room end =
      let w' = record w { bits = set w.bits (w.base % w.size) false; base = u64 (w.base + 1) } in
      let next : u64 (w.base + 1) ≡ w.base + 1 = omega arith in
      if_rule (λ (r : Window). IsPrefix done r × (done r.base ≡ false)) (bit w w.base)
        (λ here.
          advance-IsPrefix left w' (round w p (omega arith) here) (omega arith)
            (λ x h. end x (omega arith)))
        (λ stop. (p, sym (p.inside w.base (omega arith) (omega (arith, p.size_pos))) ∙ stop))

-- What is done after a granule of the window completes.
abbrev pub and_done : (ℕ → Bool) → ℕ → ℕ → Bool
and_done done granule x = done x || granule == x

-- The mark is the end of the solid prefix: the window is right, and the granule at its base is not
-- done.
pub record IsSolid (done : ℕ → Bool) (w : Window) : Type 0 where
  pub prefix : IsPrefix done w
  pub stopped : done w.base ≡ false

module _ (done : ℕ → Bool) (w : Window) (p : IsSolid done w) (granule : ℕ) where
  mark_one :
      w.base ≤ granule
      → granule < w.base + w.size
      → IsPrefix (and_done done granule) (record w { bits = set w.bits (granule % w.size) true })
  mark_one lo hi =
      let old = p.prefix in
      let slot = granule % w.size in
      let slot-lt : slot < length w.bits =
        omega (arith, old.room, mod-lt granule {m = w.size} old.size_pos) in
      record {
        size_pos = old.size_pos;
        room = length-set w.bits slot true ∙ old.room;
        before = λ x h. ground (arith, old.before x h);
        inside = λ x l h. elim (ℕ_discrete granule x) [
          | yes e ↦
              subst
                (λ x. get_or (set w.bits slot true) (x % w.size) false ≡ and_done done granule x) e
                (ground (arith, get_or-set w.bits slot slot true false slot-lt))
          | no ne ↦
              get_or-set_ne w.bits slot (x % w.size) true false (apart x ne l h)
              ∙ ground (arith, old.inside x l h)
        ];
        beyond = λ x h. ground (arith, old.beyond x h);
      }
    where
      apart :
          (x : ℕ) → granule ≢ x → w.base ≤ x → x < w.base + w.size → granule % w.size ≢ x % w.size
      apart x ne l h = elim (dec_lt granule x) [
        | yes lt ↦ mod-ne w.size w.base granule x p.prefix.size_pos lo lt h
        | no ge ↦ λ e. mod-ne w.size w.base x granule p.prefix.size_pos l (omega arith) hi (sym e)
      ]

  again : granule < w.base → IsSolid (and_done done granule) w
  again h =
      let old = p.prefix in
      record {
        prefix = record {
          size_pos = old.size_pos;
          room = old.room;
          before = λ x b. ground (arith, old.before x b);
          inside = λ x l i. ground (arith, old.inside x l i);
          beyond = λ x b. ground (arith, old.beyond x b);
        };
        stopped = ground (arith, p.stopped);
      }

-- `raidkm_dcl_pop_done` for a completion that is not past the window keeps the mark at the end of the
-- solid prefix of what is done, whatever order the granules complete in, and however often: its loop
-- ends within the rounds of one window, all before the base is done and the base is not, and the mark
-- is the base in sectors or as it was. The numbers are far from wrapping.
pub pop_done-IsSolid :
    (done : ℕ → Bool) (sectors sector : ℕ) (w : Window)
    → IsSolid done w
    → w.base + w.size < 2 ^ 64
    → sector / sectors < w.base + w.size
    → IsSolid (and_done done (sector / sectors)) (pop_done sectors w sector)
      × ((pop_done sectors w sector ≡ w)
          ⊎ ((pop_done sectors w sector).mark ≡ u64 ((pop_done sectors w sector).base * sectors)))
unfolding pop_done
pop_done-IsSolid done sectors sector w p room within =
    let granule = sector / sectors in
    let marked = record w { bits = set w.bits (granule % w.size) true } in
    let moved = advance w.size marked in
    let To = λ (r : Window).
      IsSolid (and_done done granule) r × ((r ≡ w) ⊎ (r.mark ≡ u64 (r.base * sectors))) in
    if_rule To (ltb granule w.base) (λ old. (again done w p granule (ground arith), inl refl))
      (λ fresh.
        if_rule To (leb (u64 (w.base + w.size)) granule) (λ past. absurd (ground arith))
          (λ _.
            let lo : w.base ≤ granule = ground arith in
            let (q, stop) =
              advance-IsPrefix (and_done done granule) w.size marked
                (mark_one done w p granule lo within) room
                (λ x h. ground (arith, p.prefix.beyond x h)) in
            (
              record {
                prefix = record {
                  size_pos = q.size_pos;
                  room = q.room;
                  before = q.before;
                  inside = q.inside;
                  beyond = q.beyond;
                };
                stopped = stop;
              },
              inr refl,
            )))
