-- ===== src/Rowmap/Sync/Convert.antt =====
-- `rk_rm_convert` on the whole map, page by page, and the end of a pass.
use md_kmec.Base.{
  ℕ, zero, suc, ◌+◌, ◌-◌, ◌*◌, ◌≤◌, ◌<◌, ◌≡◌, ◌≢◌, refl, Bool, true, false, not, ◌&&◌, ◌||◌, arith,
  inl, ltb, leb, ◌==◌, if◌then◌else◌, if_rule, ◌∙◌,
}
use md_kmec.Rowmap.Pack.{
  state_u, state_n, state_w, state_s, rows_per_page, set_state_in-IsMap, state_in-set,
}
use md_kmec.Rowmap.State.{Rowmap, get, put, is_dirty, need_of, IsSized}
use md_kmec.Rowmap.Note.Rows.{get-put, put-IsSized, dirty-put}
use md_kmec.Rowmap.Safe.Moves.{Moves, Moves-refl, Moves-trans, counts-Moves, queue_lazy-Moves}
use md_kmec.Rowmap.Sync.{min, convert_row, convert_rows, convert_pages, convert, Pass, pass_end}

module _ (from to : ℕ) where
  -- The rows of `within` that were in one state are in the other, and nothing else that a flush
  -- or a writer reads has changed but for pages that became dirty.
  pub record Converted (within : ℕ → Bool) (rm rm' : Rowmap) : Type 0 where
    pub sized : IsSized rm'
    pub frame :
        (rm'.nrows ≡ rm.nrows)
        × (rm'.npages ≡ rm.npages)
        × (rm'.epoch ≡ rm.epoch)
        × (rm'.durable ≡ rm.durable)
        × (rm'.id ≡ rm.id)
    pub needs : (p : ℕ) → need_of rm' p ≡ need_of rm p
    pub dirt : (p : ℕ) → is_dirty rm p ≡ true → is_dirty rm' p ≡ true
    pub states : (x : ℕ) → get rm' x ≡ (if within x && get rm x == from then to else get rm x)

  Converted-none :
      {within : ℕ → Bool} {rm : Rowmap}
      → IsSized rm
      → ((x : ℕ) → (within x && get rm x == from) ≡ false)
      → Converted within rm rm
  Converted-none z h = record {
    sized = z;
    frame = omega arith;
    needs = λ p. refl;
    dirt = λ p d. d;
    states = λ x. ground (arith, h x);
  }

  Converted-trans :
      {a b c : Rowmap} {v w u : ℕ → Bool}
      → from ≢ to
      → ((x : ℕ) → (v x || w x) ≡ u x)
      → Converted v a b
      → Converted w b c
      → Converted u a c
  Converted-trans ne split m n = record {
    sized = n.sized;
    frame = omega (arith, m.frame, n.frame);
    needs = λ p. n.needs p ∙ m.needs p;
    dirt = λ p d. n.dirt p (m.dirt p d);
    states = λ x. ground (arith, m.states x, n.states x, split x);
  }

  module _ (ne : from ≢ to) (small : to < 4) (persist : Bool) where
    convert_row-Converted :
        (r n : ℕ) (rm : Rowmap)
        → IsSized rm
        → r < rm.nrows
        → Converted (λ x. r == x) rm (convert_row from to persist r (rm, n)).0
    unfolding convert_row get
    convert_row-Converted r n rm z h =
        if_rule (λ (y : Rowmap × ℕ). Converted (λ x. r == x) rm y.0) (not (get rm r == from))
          (λ other. unfold get in Converted-none z (λ x. ground arith))
          (λ same.
            if_rule (Converted (λ x. r == x) rm) persist
              (λ _. record {
                sized = put-IsSized r to z h small;
                frame = unfold put in omega arith;
                needs = λ p. unfold put in refl;
                dirt = λ p d. ground (arith, dirty-put r to p z h);
                states = λ x. ground (arith, get-put r to x z h small);
              })
              (λ _. record {
                sized = record {
                  some_rows = z.some_rows;
                  pages = z.pages;
                  bytes = set_state_in-IsMap r to z.bytes h small;
                  dirty_size = z.dirty_size;
                  need_size = z.need_size;
                  skipped_size = z.skipped_size;
                };
                frame = omega arith;
                needs = λ p. refl;
                dirt = λ p d. d;
                states = λ x. ground (arith, state_in-set r to x z.bytes h small);
              }))

    convert_rows-Converted :
        (left r : ℕ) (y : Rowmap × ℕ)
        → IsSized y.0
        → (0 < left → r + left ≤ y.0.nrows)
        → Converted (λ x. leb r x && ltb x (r + left)) y.0 (convert_rows from to persist left r y).0
    unfolding convert_rows
    convert_rows-Converted zero r y z h = Converted-none z (λ x. ground arith)
    convert_rows-Converted (suc left) r y z h =
        let room = h (omega arith) in
        let one = convert_row-Converted r y.1 y.0 z (omega arith) in
        Converted-trans ne (λ x. ground arith) one
          (convert_rows-Converted left (r + 1) (convert_row from to persist r y) one.sized
            (λ _. omega (arith, one.frame)))

    convert_pages-Converted :
        (left p : ℕ) (y : Rowmap × ℕ)
        → IsSized y.0
        → Converted
            (λ x. leb (p * rows_per_page) x && ltb x (min y.0.nrows ((p + left) * rows_per_page)))
            y.0
            (convert_pages from to persist left p y).0
    unfolding convert_pages
    convert_pages-Converted zero p y z = Converted-none z (λ x. ground arith)
    convert_pages-Converted (suc left) p y z =
        let r = p * rows_per_page in
        let end = min y.0.nrows (r + rows_per_page) in
        let one = convert_rows-Converted (end - r) r y z (λ some_left. ground arith) in
        Converted-trans ne (λ x. ground (arith, one.frame)) one
          (convert_pages-Converted left (p + 1) (convert_rows from to persist (end - r) r y)
            one.sized)

    -- Every row that was in the one state is in the other.
    pub convert-Converted :
        (rm : Rowmap)
        → IsSized rm
        → Converted (λ x. ltb x rm.nrows) rm (convert rm from to persist).0
    unfolding convert
    convert-Converted rm z =
        let all = convert_pages-Converted rm.npages 0 (rm, 0) z in
        record {
          sized = all.sized;
          frame = all.frame;
          needs = all.needs;
          dirt = all.dirt;
          states = λ x. ground (arith, all.states x, z.pages);
        }

    -- Between used states it keeps the order of the writes.
    pub convert-Moves :
        (rm : Rowmap) → IsSized rm → from ≢ state_u → Moves rm (convert rm from to persist).0
    convert-Moves rm z hf =
        let all = convert-Converted rm z in
        record {
          sized = all.sized;
          frame = all.frame;
          rows = λ r h u. inl (ground (arith, all.states r));
          needs = λ p. inl (all.needs p);
          dirt = all.dirt;
        }

-- The state of a row after `raidkm_rowmap_pass_end`: only a pass that was marked, was not cut short
-- and has come to the end moves a row, and only one in S. It is in sync, W, unless the write-intent
-- bitmap may have skipped it.
pub pass_end-states :
    (pass : Pass) (rm : Rowmap) (max_sector r : ℕ)
    → IsSized rm
    → r < rm.nrows
    → get (pass_end pass rm max_sector) r ≡ (
        if rm.pass_marked && not pass.intr && leb pass.dev_sectors max_sector && get rm r == state_s
        then (if pass.bitmap && not pass.fullsync && not pass.requested then state_n else state_w)
        else get rm r)
unfolding pass_end
pass_end-states pass rm max_sector r z h =
    let over = record rm { pass_marked = false } in
    let z' : IsSized over = record {
      some_rows = z.some_rows;
      pages = z.pages;
      bytes = z.bytes;
      dirty_size = z.dirty_size;
      need_size = z.need_size;
      skipped_size = z.skipped_size;
    } in
    let done =
      (convert-Converted state_s state_w (omega arith) (omega arith) true over z').states r in
    let kept =
      (convert-Converted state_s state_n (omega arith) (omega arith) false over z').states r in
    unfold get in ground (arith, done, kept)

marked-Moves : {rm : Rowmap} {b : Bool} → IsSized rm → Moves rm (record rm { pass_marked = b })
unfolding get
marked-Moves z = record {
  sized = record {
    some_rows = z.some_rows;
    pages = z.pages;
    bytes = z.bytes;
    dirty_size = z.dirty_size;
    need_size = z.need_size;
    skipped_size = z.skipped_size;
  };
  frame = omega arith;
  rows = λ r h u. inl u;
  needs = λ p. inl refl;
  dirt = λ p d. d;
}

-- The start of a resync, which moves N rows to S in core.
pub mark-Moves :
    (rm : Rowmap)
    → IsSized rm
    → Moves rm (record (convert rm state_n state_s false).0 { pass_marked = true })
mark-Moves rm z =
    let moved =
      convert-Moves state_n state_s (omega arith) (omega arith) false rm z (omega arith) in
    Moves-trans moved (marked-Moves moved.sized)

pub pass_end-Moves :
    (pass : Pass) (rm : Rowmap) (max_sector : ℕ)
    → IsSized rm
    → Moves rm (pass_end pass rm max_sector)
unfolding pass_end
pass_end-Moves pass rm max_sector z =
    let over = record rm { pass_marked = false } in
    let first : Moves rm over = marked-Moves z in
    let done : Moves rm (convert over state_s state_w true).0 = Moves-trans first (
      convert-Moves state_s state_w (omega arith) (omega arith) true over first.sized
        (omega arith)) in
    if_rule (Moves rm) (not rm.pass_marked) (λ _. Moves-refl z)
      (λ _.
        if_rule (Moves rm) (pass.intr || ltb max_sector pass.dev_sectors) (λ _. first)
          (λ _.
            if_rule (Moves rm) (pass.bitmap && not pass.fullsync && not pass.requested)
              (λ _. Moves-trans first (
                convert-Moves state_s state_n (omega arith) (omega arith) false over first.sized
                  (omega arith)))
              (λ _.
                if_rule (Moves rm) ((convert over state_s state_w true).1 == 0) (λ _. done)
                  (λ _.
                    let counted = Moves-trans done (counts-Moves done.sized) in
                    Moves-trans counted (queue_lazy-Moves counted.sized)))))
