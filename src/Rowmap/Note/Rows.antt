-- ===== src/Rowmap/Note/Rows.antt =====
-- One row of `raidkm_rowmap_note_write`, and the frame of its loop.
use md_kmec.Base.{
  ℕ, ◌+◌, ◌<◌, ◌≡◌, Bool, true, false, not, ◌&&◌, set, u64, ◌==◌, if◌then◌else◌, arith, length-set,
  get_or-set, ◌∙◌, if_rule,
}
use md_kmec.Rowmap.Pack.{state_u, state_n, state_w, page_of, state_in-set, set_state_in-IsMap}
use md_kmec.Rowmap.State.{Rowmap, Counts, get, put, is_dirty, need_of, IsSized}
use md_kmec.Rowmap.Note.{Noted, is_full, note_row}

-- What a write of a row's state leaves of the whole map.
pub get-put :
    {rm : Rowmap} (row st r : ℕ)
    → IsSized rm
    → row < rm.nrows
    → st < 4
    → get (put rm row st) r ≡ (if row == r then st else get rm r)
unfolding get put
get-put row st r z h hst = state_in-set row st r z.bytes h hst

pub put-IsSized :
    {rm : Rowmap} (row st : ℕ) → IsSized rm → row < rm.nrows → st < 4 → IsSized (put rm row st)
unfolding put
put-IsSized {rm} row st z h hst = record {
  some_rows = z.some_rows;
  pages = z.pages;
  bytes = set_state_in-IsMap row st z.bytes h hst;
  dirty_size = length-set rm.dirty (page_of row) true ∙ z.dirty_size;
  need_size = z.need_size;
  skipped_size = z.skipped_size;
}

pub page_of-lt : {rm : Rowmap} (row : ℕ) → IsSized rm → row < rm.nrows → page_of row < rm.npages
page_of-lt row z h = omega (arith, z.pages)

pub dirty-put :
    {rm : Rowmap} (row st p : ℕ)
    → IsSized rm
    → row < rm.nrows
    → is_dirty (put rm row st) p ≡ (if page_of row == p then true else is_dirty rm p)
unfolding put
dirty-put {rm} row st p z h =
    get_or-set rm.dirty (page_of row) p true false (omega (arith, page_of-lt row z h, z.dirty_size))

pub counts-IsSized : {rm : Rowmap} {c : Counts} → IsSized rm → IsSized (record rm { counts = c })
counts-IsSized z = record {
  some_rows = z.some_rows;
  pages = z.pages;
  bytes = z.bytes;
  dirty_size = z.dirty_size;
  need_size = z.need_size;
  skipped_size = z.skipped_size;
}

pub lazy-IsSized : {rm : Rowmap} {b : Bool} → IsSized rm → IsSized (record rm { lazy = b })
lazy-IsSized z = record {
  some_rows = z.some_rows;
  pages = z.pages;
  bytes = z.bytes;
  dirty_size = z.dirty_size;
  need_size = z.need_size;
  skipped_size = z.skipped_size;
}

need-IsSized :
    {rm : Rowmap} (r : ℕ)
    → IsSized rm
    → IsSized (record rm { need = set rm.need (page_of r) (u64 (rm.epoch + 1)) })
need-IsSized {rm} r z = record {
  some_rows = z.some_rows;
  pages = z.pages;
  bytes = z.bytes;
  dirty_size = z.dirty_size;
  need_size = length-set rm.need (page_of r) (u64 (rm.epoch + 1)) ∙ z.need_size;
  skipped_size = z.skipped_size;
}

abbrev Sized : Noted → Type 0
Sized n = IsSized n.rm

module _ (rs sector end : ℕ) where
  -- The state that a row has after the write, given its state before.
  abbrev pub written : ℕ → ℕ → ℕ
  written r st = if is_full rs sector end r then state_w else if st == state_u then state_n else st

  module _ (n : Noted) (z : IsSized n.rm) (r : ℕ) (h : r < n.rm.nrows) where
    pub get-note_row :
        (x : ℕ)
        → get (note_row rs sector end r n).rm x
          ≡ (if r == x then written r (get n.rm r) else get n.rm x)
    unfolding note_row get put
    get-note_row x = ground (
      arith,
      state_in-set r state_w x z.bytes h (omega arith),
      state_in-set r state_n x z.bytes h (omega arith),
    )

    -- A row that leaves U needs the next flush; no other need changes.
    pub need-note_row :
        (p : ℕ)
        → need_of (note_row rs sector end r n).rm p ≡ (
            if (get n.rm r == state_u) && (page_of r == p)
            then u64 (n.rm.epoch + 1)
            else need_of n.rm p)
    unfolding note_row put
    need-note_row p = ground (
      arith,
      get_or-set n.rm.need (page_of r) p (u64 (n.rm.epoch + 1)) 0
          (omega (arith, page_of-lt r z h, z.need_size)),
    )

    -- A row whose state changes makes its page dirty; no page becomes clean.
    pub dirty-note_row :
        (p : ℕ)
        → is_dirty (note_row rs sector end r n).rm p ≡ (
            if not (written r (get n.rm r) == get n.rm r) && (page_of r == p)
            then true
            else is_dirty n.rm p)
    unfolding note_row put
    dirty-note_row p = ground (
      arith,
      get_or-set n.rm.dirty (page_of r) p true false
          (omega (arith, page_of-lt r z h, z.dirty_size)),
    )

    pub note_row-IsSized : IsSized (note_row rs sector end r n).rm
    unfolding note_row
    note_row-IsSized =
        let full = is_full rs sector end r in
        let z' = need-IsSized r z in
        if_rule Sized (get n.rm r == state_u)
          (λ _.
            if_rule Sized full (λ _. counts-IsSized (put-IsSized r state_w z' h (omega arith)))
              (λ _. counts-IsSized (put-IsSized r state_n z' h (omega arith))))
          (λ _.
            if_rule Sized (not (get n.rm r == state_w) && full)
              (λ _. counts-IsSized (put-IsSized r state_w z h (omega arith))) (λ _. z))

    -- The loop touches neither the sizes nor the flush state.
    pub note_row_frame :
        let rm' = (note_row rs sector end r n).rm in
        (rm'.nrows ≡ n.rm.nrows)
        × (rm'.npages ≡ n.rm.npages)
        × (rm'.epoch ≡ n.rm.epoch)
        × (rm'.durable ≡ n.rm.durable)
        × (rm'.gen ≡ n.rm.gen)
        × (rm'.id ≡ n.rm.id)
    unfolding note_row put
    note_row_frame = ground arith

    pub durable-note_row :
        (note_row rs sector end r n).durable ≡ (if get n.rm r == state_u then true else n.durable)
    unfolding note_row
    durable-note_row = ground arith
