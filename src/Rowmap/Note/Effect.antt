-- ===== src/Rowmap/Note/Effect.antt =====
-- `raidkm_rowmap_note_write` as a whole: the state of every row after it.
use native.Mathlib.Nat.{div-lt_iff_lt-mul, le-div_iff_mul-le, mul-le-mul_right}
use md_kmec.Base.{
  ℕ, zero, suc, ◌+◌, ◌-◌, ◌*◌, ◌/◌, ◌^◌, ◌≤◌, ◌<◌, ◌≡◌, refl, sym, Bool, true, false, not, ◌&&◌,
  u64, ltb, leb, ◌==◌, if◌then◌else◌, arith, if_rule, ◌∙◌, dec_lt,
}
use md_kmec.Rowmap.Pack.{state_u, state_n, state_w}
use md_kmec.Rowmap.State.{Rowmap, get, IsSized}
use md_kmec.Rowmap.Note.{Noted, is_full, any_change, note_row, note_rows, note_write, queue_lazy}
use md_kmec.Rowmap.Note.Rows.{written, get-note_row, note_row-IsSized, note_row_frame}

module _ (rs sector end : ℕ) where
  pub get-note_rows :
      (left r : ℕ) (n : Noted) (x : ℕ)
      → IsSized n.rm
      → (0 < left → r + left ≤ n.rm.nrows)
      → get (note_rows rs sector end left r n).rm x
        ≡ (if leb r x && ltb x (r + left) then written rs sector end x (get n.rm x) else get n.rm x)
  unfolding note_rows
  get-note_rows zero r n x z h = ground arith
  get-note_rows (suc left) r n x z h =
      let room = h (omega arith) in
      let hr : r < n.rm.nrows = omega arith in
      let frame = note_row_frame rs sector end n z r hr in
      let rest =
        get-note_rows left (r + 1) (note_row rs sector end r n) x
          (note_row-IsSized rs sector end n z r hr) (λ _. omega (arith, frame)) in
      ground (arith, rest, get-note_row rs sector end n z r hr x)

  -- Where the first loop finds nothing, the second would change no state.
  any_change-false :
      (left r : ℕ) (rm : Rowmap) (x : ℕ)
      → any_change rs sector end left r rm ≡ false
      → r ≤ x
      → x < r + left
      → written rs sector end x (get rm x) ≡ get rm x
  unfolding any_change
  any_change-false zero r rm x e lo hi = absurd (omega arith)
  any_change-false (suc left) r rm x e lo hi = ground (arith, any_change-false left (r + 1) rm x)

-- The state of row `r` of `rs` sectors after a write of [sector, sector + sectors): a row that the
-- write covers whole is W, an unwritten row that it meets is N, and any other row is as it was.
abbrev pub state_after : ℕ → ℕ → ℕ → ℕ → ℕ → ℕ
state_after rs sector sectors r st =
    if sectors == 0
    then st
    else if leb sector (r * rs) && leb ((r + 1) * rs) (sector + sectors)
    then state_w
    else if ltb (r * rs) (sector + sectors) && ltb sector ((r + 1) * rs) && st == state_u
    then state_n
    else st

choose :
    (covers meets unwritten : Bool) (st : ℕ)
    → (covers ≡ true → meets ≡ true)
    → (if meets then (if covers then state_w else if unwritten then state_n else st) else st)
      ≡ (if covers then state_w else if meets && unwritten then state_n else st)
choose true true u st h = refl
choose true false u st h = absurd (cc (h refl))
choose false true u st h = refl
choose false false u st h = refl

module _ (rm : Rowmap) (rs sector sectors : ℕ) (z : IsSized rm) (pos : 0 < rs)
    (cap : rm.nrows * rs < 2 ^ 64) (fits : sector + sectors < 2 ^ 64) (r : ℕ)
    (h : r < rm.nrows) where
  row_end : (r + 1) * rs ≤ rm.nrows * rs
  row_end = omega (arith, mul-le-mul_right rs h)

  abbrev end : ℕ
  end = sector + sectors

  abbrev first : ℕ
  first = sector / rs

  abbrev reach : ℕ
  reach = (end - 1) / rs

  abbrev last : ℕ
  last = if leb rm.nrows reach then rm.nrows - 1 else reach

  abbrev left : ℕ
  left = last + 1 - first

  -- The range of the loops holds the row exactly when the write meets it.
  in_range :
      0 < sectors
      → (leb first r && ltb r (first + left)) ≡ (ltb (r * rs) end && ltb sector ((r + 1) * rs))
  in_range some_sectors = ground (
    arith,
    div-lt_iff_lt-mul {k = rs} {x = sector} {y = r + 1} pos,
    le-div_iff_mul-le {k = rs} {x = r} {y = end - 1} pos,
  )

  full_plain : is_full rs sector end r ≡ (leb sector (r * rs) && leb ((r + 1) * rs) end)
  full_plain =
      let low : u64 (r * rs) ≡ r * rs = omega (arith, row_end) in
      let high : u64 ((r + 1) * rs) ≡ (r + 1) * rs = omega (arith, row_end) in rw (low, high)

  abbrev noted : Noted
  noted = note_rows rs sector end left first (record { rm = rm; durable = false; queued = false })

  -- The code with its words written as numbers: nothing wraps.
  pub note_write-eq :
      0 < sectors
      → note_write rm rs sector sectors ≡ (
          if not (any_change rs sector end left first rm) then (rm, false) else (
            if noted.queued && not noted.durable then queue_lazy noted.rm else noted.rm,
            noted.durable,
          ))
  unfolding note_write
  note_write-eq some_sectors =
      let e1 : u64 (sector + sectors) ≡ end = omega arith in
      let e2 : u64 (end + 2 ^ 64 - 1) ≡ end - 1 = omega arith in
      let e3 : (sectors == 0) ≡ false = ground arith in rw (e1, e2, e3)

  get-noted : get noted.rm r ≡ (
      if leb first r && ltb r (first + left) then written rs sector end r (get rm r) else get rm r)
  get-noted =
      get-note_rows rs sector end left first (record { rm = rm; durable = false; queued = false }) r
        z (λ p. ground arith)

  get-queue : (m : Rowmap) (b : Bool) → get (if b then queue_lazy m else m) r ≡ get m r
  unfolding get
  get-queue m b = ground arith

  unchanged :
      not (any_change rs sector end left first rm) ≡ true
      → (if leb first r && ltb r (first + left)
          then written rs sector end r (get rm r)
          else get rm r)
        ≡ get rm r
  unchanged quiet =
      if_rule (λ x. x ≡ get rm r) (leb first r && ltb r (first + left))
        (λ here.
          any_change-false rs sector end left first rm r (ground arith) (ground arith)
            (ground arith))
        (λ _. refl)

  abbrev covers : Bool
  covers = leb sector (r * rs) && leb ((r + 1) * rs) end

  abbrev meets : Bool
  meets = ltb (r * rs) end && ltb sector ((r + 1) * rs)

  covers→meets : covers ≡ true → meets ≡ true
  covers→meets c = ground (arith, pos)

  -- Applying the rule to the rows in range is the state after the write.
  by_range :
      0 < sectors
      → (if leb first r && ltb r (first + left)
          then written rs sector end r (get rm r)
          else get rm r)
        ≡ state_after rs sector sectors r (get rm r)
  by_range some_sectors =
      let e3 : (sectors == 0) ≡ false = ground arith in
      rw (in_range some_sectors, full_plain, e3)
        (choose covers meets (get rm r == state_u) (get rm r) covers→meets)

  -- `raidkm_rowmap_note_write` leaves every row in the state that the write makes of it, whether or
  -- not the look without the lock found a row to change: for a write that does not wrap, in an
  -- array of rows of at least one sector.
  pub note_write_states :
      get (note_write rm rs sector sectors).0 r ≡ state_after rs sector sectors r (get rm r)
  note_write_states = elim (dec_lt 0 sectors) [
    | yes p ↦ rw (note_write-eq p) (
        if_rule (λ (res : Rowmap × Bool). get res.0 r ≡ state_after rs sector sectors r (get rm r))
          (not (any_change rs sector end left first rm))
          (λ quiet. sym (unchanged quiet) ∙ by_range p)
          (λ _. get-queue noted.rm (noted.queued && not noted.durable) ∙ get-noted ∙ by_range p))
    | no p ↦ let e3 : (sectors == 0) ≡ true = ground arith in unfold note_write in rw e3
  ]
