-- ===== src/Rowmap/Safe/Moves.antt =====
-- The state changes of writers, discards and sync passes keep the order of the writes.
use md_kmec.Base.{
  ℕ, zero, suc, ◌+◌, ◌-◌, ◌/◌, ◌^◌, ◌≤◌, ◌<◌, ◌≡◌, ◌≢◌, ◌⊎◌, inl, inr, refl, Bool, true, false, not,
  ◌&&◌, ◌||◌, Option, none, some, arith, ltb, leb, ◌==◌, if◌then◌else◌, u64, if_rule, sym, subst,
  List, Bool-cases,
}
use md_kmec.Rowmap.Pack.{state_u, state_n, state_w, state_s, page_of}
use md_kmec.Rowmap.State.{Rowmap, Counts, get, put, is_dirty, need_of, IsSized}
use md_kmec.Rowmap.Note.{
  Noted, note_row, note_rows, note_write, queue_lazy, any_change, discard_rows, note_discard,
  note_row_written,
}
use md_kmec.Rowmap.Note.Rows.{
  get-put, put-IsSized, dirty-put, counts-IsSized, lazy-IsSized, get-note_row, need-note_row,
  dirty-note_row, note_row-IsSized, note_row_frame,
}
use md_kmec.Rowmap.Flush.{Sys, Flight}
use md_kmec.Rowmap.Member.{Slots}
use md_kmec.Rowmap.Safe.{IsUsed, OnDisk, IsSafe, FlightSafe}

-- What such a change may do: a row that is used after it was used before, or its page is dirty and
-- needs the next flush; a need may rise to the next flush; no page becomes clean.
pub record Moves (rm rm' : Rowmap) : Type 0 where
  pub sized : IsSized rm'
  pub frame :
      (rm'.nrows ≡ rm.nrows)
      × (rm'.npages ≡ rm.npages)
      × (rm'.epoch ≡ rm.epoch)
      × (rm'.durable ≡ rm.durable)
      × (rm'.id ≡ rm.id)
  pub rows :
      (r : ℕ)
      → r < rm.nrows
      → IsUsed rm' r
      → IsUsed rm r
        ⊎ ((need_of rm' (page_of r) ≡ u64 (rm.epoch + 1)) × (is_dirty rm' (page_of r) ≡ true))
  pub needs : (p : ℕ) → (need_of rm' p ≡ need_of rm p) ⊎ (need_of rm' p ≡ u64 (rm.epoch + 1))
  pub dirt : (p : ℕ) → is_dirty rm p ≡ true → is_dirty rm' p ≡ true

pub Moves-refl : {rm : Rowmap} → IsSized rm → Moves rm rm
Moves-refl z = record {
  sized = z;
  frame = omega arith;
  rows = λ r h u. inl u;
  needs = λ p. inl refl;
  dirt = λ p d. d;
}

pub Moves-trans : {a b c : Rowmap} → Moves a b → Moves b c → Moves a c
Moves-trans {a} {b} {c} m n = record {
  sized = n.sized;
  frame = omega (arith, m.frame, n.frame);
  rows = λ r h u.
      ground (arith, m.frame, n.frame, n.rows r, m.rows r, n.needs (page_of r), n.dirt (page_of r));
  needs = λ p. ground (arith, m.frame, m.needs p, n.needs p);
  dirt = λ p d. n.dirt p (m.dirt p d);
}

-- A need that the flush before covers was there, and so was the row.
before :
    {rm rm' : Rowmap} {e : ℕ} (r : ℕ)
    → Moves rm rm'
    → rm.epoch < 2 ^ 63
    → e ≤ rm.epoch
    → r < rm.nrows
    → IsUsed rm' r
    → need_of rm' (page_of r) ≤ e
    → IsUsed rm r × (need_of rm (page_of r) ≤ e)
before {rm} r m small past h u n =
    let next : u64 (rm.epoch + 1) ≡ rm.epoch + 1 = omega arith in
    elim (m.rows r h u) [
      | inl was ↦ elim (m.needs (page_of r)) [
        | inl same ↦ (was, omega arith)
        | inr risen ↦ absurd (omega arith)
      ]
      | inr (risen, _) ↦ absurd (omega arith)
    ]

before_clean :
    {rm rm' : Rowmap} (r : ℕ)
    → Moves rm rm'
    → r < rm.nrows
    → IsUsed rm' r
    → is_dirty rm' (page_of r) ≡ false
    → IsUsed rm r × (is_dirty rm (page_of r) ≡ false)
before_clean {rm} r m h u c = elim (Bool-cases (is_dirty rm (page_of r))) [
  | inl d ↦ absurd (cc (m.dirt (page_of r) d))
  | inr d ↦ elim (m.rows r h u) [ inl was ↦ (was, d) | inr (_, d') ↦ absurd (cc) ]
]

module _ (crc32c : List ℕ → ℕ → ℕ → ℕ) where
  same_id : {i j r : ℕ} {slots : Slots} → j ≡ i → OnDisk crc32c i r slots → OnDisk crc32c j r slots
  same_id {r} {slots} e d = subst (λ k. OnDisk crc32c k r slots) (sym e) d

  flying_after :
      (sys : Sys) {rm' : Rowmap} (flight : Option Flight)
      → Moves sys.rm rm'
      → sys.rm.epoch < 2 ^ 63
      → FlightSafe crc32c sys flight
      → FlightSafe crc32c (record sys { rm = rm' }) flight
  flying_after sys none m small f = tt
  flying_after sys {rm'} (some f) m small (past, holds) = (
    omega (arith, m.frame),
    λ r h u n wait ok.
        let h' : r < sys.rm.nrows = omega (arith, m.frame) in
        let (was, need) = before r m small past h' u n in
        same_id m.frame.4 (holds r h' was need wait ok),
  )

  -- A change keeps the order of the writes, whatever flush is running beside it.
  pub Moves-IsSafe :
      {sys : Sys} {rm' : Rowmap} {flight : Option Flight}
      → Moves sys.rm rm'
      → IsSafe crc32c sys flight
      → IsSafe crc32c (record sys { rm = rm' }) flight
  Moves-IsSafe {sys} {rm'} {flight} m s = record {
    sized = m.sized;
    epochs = omega (arith, m.frame, s.epochs);
    small = omega (arith, m.frame, s.small);
    asked = λ p. omega (arith, m.frame, m.needs p, s.asked p, s.small);
    clean = λ r h u c wait.
        let h' : r < sys.rm.nrows = omega (arith, m.frame) in
        let (was, d) = before_clean r m h' u c in same_id m.frame.4 (s.clean r h' was d wait);
    settled = λ r h u n.
        let h' : r < sys.rm.nrows = omega (arith, m.frame) in
        let n' : need_of rm' (page_of r) ≤ sys.rm.durable = omega (arith, m.frame) in
        let (was, need) = before r m (omega (arith, s.small)) s.epochs h' u n' in
        same_id m.frame.4 (s.settled r h' was need);
    flying = flying_after sys flight m (omega (arith, s.small)) s.flying;
  }

-- `rk_rm_set` on a used row, and on a row that is discarded.
pub put-Moves :
    {rm : Rowmap} (row st : ℕ)
    → IsSized rm
    → row < rm.nrows
    → st < 4
    → (st ≢ state_u → IsUsed rm row)
    → Moves rm (put rm row st)
unfolding put
put-Moves {rm} row st z h hst ok = record {
  sized = unfold put in put-IsSized row st z h hst;
  frame = omega arith;
  rows = λ r hr u. ground (arith, get-put row st r z h hst);
  needs = λ p. inl refl;
  dirt = λ p d. ground (arith, dirty-put row st p z h);
}

pub counts-Moves : {rm : Rowmap} {c : Counts} → IsSized rm → Moves rm (record rm { counts = c })
unfolding get
counts-Moves z = record {
  sized = counts-IsSized z;
  frame = omega arith;
  rows = λ r h u. inl u;
  needs = λ p. inl refl;
  dirt = λ p d. d;
}

pub queue_lazy-Moves : {rm : Rowmap} → IsSized rm → Moves rm (queue_lazy rm)
unfolding get
queue_lazy-Moves z = record {
  sized = lazy-IsSized z;
  frame = omega arith;
  rows = λ r h u. inl u;
  needs = λ p. inl refl;
  dirt = λ p d. d;
}

module _ (rs sector end : ℕ) where
  note_row-Moves :
      (r : ℕ) (n : Noted)
      → IsSized n.rm
      → r < n.rm.nrows
      → Moves n.rm (note_row rs sector end r n).rm
  note_row-Moves r n z h = record {
    sized = note_row-IsSized rs sector end n z r h;
    frame = omega (arith, note_row_frame rs sector end n z r h);
    rows = λ x hx u. ground (
      arith,
      get-note_row rs sector end n z r h x,
      need-note_row rs sector end n z r h (page_of x),
      dirty-note_row rs sector end n z r h (page_of x),
    );
    needs = λ p. ground (arith, need-note_row rs sector end n z r h p);
    dirt = λ p d. ground (arith, dirty-note_row rs sector end n z r h p);
  }

  note_rows-Moves :
      (left r : ℕ) (n : Noted)
      → IsSized n.rm
      → (0 < left → r + left ≤ n.rm.nrows)
      → Moves n.rm (note_rows rs sector end left r n).rm
  unfolding note_rows
  note_rows-Moves zero r n z h = Moves-refl z
  note_rows-Moves (suc left) r n z h =
      let room = h (omega arith) in
      let one = note_row-Moves r n z (omega arith) in
      Moves-trans one (
        note_rows-Moves left (r + 1) (note_row rs sector end r n) one.sized
          (λ _. omega (arith, one.frame)))

-- `raidkm_rowmap_note_write`, for any range at all.
pub note_write-Moves :
    (rm : Rowmap) (rs sector sectors : ℕ)
    → IsSized rm
    → Moves rm (note_write rm rs sector sectors).0
unfolding note_write
note_write-Moves rm rs sector sectors z =
    let end = u64 (sector + sectors) in
    let first = sector / rs in
    let reach = u64 (end + 2 ^ 64 - 1) / rs in
    let last = if leb rm.nrows reach then rm.nrows - 1 else reach in
    let left = last + 1 - first in
    let noted =
      note_rows rs sector end left first (record { rm = rm; durable = false; queued = false }) in
    let loop : Moves rm noted.rm =
      note_rows-Moves rs sector end left first (record { rm = rm; durable = false; queued = false })
        z (λ p. ground (arith, z.some_rows)) in
    if_rule To (sectors == 0) (λ _. Moves-refl z)
      (λ _.
        if_rule To (not (any_change rs sector end left first rm)) (λ _. Moves-refl z)
          (λ _.
            if_rule (Moves rm) (noted.queued && not noted.durable)
              (λ _. Moves-trans loop (queue_lazy-Moves loop.sized)) (λ _. loop)))
  where
    To : Rowmap × Bool → Type 0
    To r = Moves rm r.0

-- `raidkm_rowmap_note_row_written`.
pub note_row_written-Moves :
    (rm : Rowmap) (row : ℕ) → IsSized rm → Moves rm (note_row_written rm row)
unfolding note_row_written
note_row_written-Moves rm row z =
    if_rule (Moves rm) (leb rm.nrows row) (λ _. Moves-refl z)
      (λ inside.
        if_rule (Moves rm) ((get rm row == state_n) || (get rm row == state_s))
          (λ was.
            let set = put-Moves row state_w z (ground arith) (omega arith) (λ _. ground arith) in
            let counted = Moves-trans set (counts-Moves set.sized) in
            Moves-trans counted (queue_lazy-Moves counted.sized))
          (λ _. Moves-refl z))

discard_rows-Moves :
    (left r n : ℕ) (rm : Rowmap)
    → IsSized rm
    → (0 < left → r + left ≤ rm.nrows)
    → Moves rm (discard_rows left r (rm, n)).0
unfolding discard_rows
discard_rows-Moves zero r n rm z h = Moves-refl z
discard_rows-Moves (suc left) r n rm z h =
    let room = h (omega arith) in
    elim (Bool-cases (get rm r == state_u)) [
      | inl e ↦ rw (e, discard_rows) (discard_rows-Moves left (r + 1) n rm z (λ _. omega arith))
      | inr e ↦
          let one = put-Moves r state_u z (omega arith) (omega arith) (λ q. absurd (q refl)) in
          rw (e, discard_rows)
            (Moves-trans one (
              discard_rows-Moves left (r + 1) (n + 1) (put rm r state_u) one.sized
                (λ _. omega (arith, one.frame))))
    ]

-- `raidkm_rowmap_note_discard`.
pub note_discard-Moves :
    (rm : Rowmap) (first_row last_row : ℕ)
    → IsSized rm
    → Moves rm (note_discard rm first_row last_row)
unfolding note_discard
note_discard-Moves rm first_row last_row z =
    let last = if ltb rm.nrows last_row then rm.nrows else last_row in
    let out = discard_rows (last - first_row) first_row (rm, 0) in
    let loop : Moves rm out.0 =
      discard_rows-Moves (last - first_row) first_row 0 rm z (λ p. ground arith) in
    if_rule (Moves rm) (out.1 == 0) (λ _. loop)
      (λ _.
        let counted = Moves-trans loop (counts-Moves loop.sized) in
        Moves-trans counted (queue_lazy-Moves counted.sized))
