-- ===== src/Rowmap/Safe/Flushing.antt =====
-- A flush keeps the order of the writes, at its start, at each page and at its end.
use md_kmec.Base.{
  ℕ, ◌+◌, ◌%◌, ◌^◌, ◌≤◌, ◌<◌, ◌≡◌, ◌≢◌, ◌⊎◌, inl, inr, refl, List, Bool, true, false, not, ◌&&◌,
  none, some, arith, leb, u64, if_rule, ap, sym, ◌∙◌, subst, Bool-cases, get_or, get_or-replicate,
  length, length-replicate, replicate, set, length-set, get_or-set_ne, ℕ_discrete,
}
use md_kmec.Rowmap.Pack.{state_u, page_of, rows_per_page, state_in}
use md_kmec.Rowmap.Page.{Page, page_body, seal, check, check-seal, KeepsZero, state_in-page_body}
use md_kmec.Rowmap.State.{Rowmap, Counts, get, is_dirty}
use md_kmec.Rowmap.Note.Rows.{page_of-lt, counts-IsSized}
use md_kmec.Rowmap.Member.{Slots, Io, IsIo, Written, write_slots}
use md_kmec.Rowmap.Member.Writes.{Changed, Changed-get, Took, write_slots-Took}
use md_kmec.Rowmap.Flush.{
  Sys, Flight, todo_at, bitmap_empty, flush_begin, flush_clear, reached_none, flush_page, flush_end,
}
use md_kmec.Rowmap.Safe.{IsUsed, pending, OnDisk, IsSafe}

module _ (crc32c : List ℕ → ℕ → ℕ → ℕ) where
  module _ (sys : Sys) (s : IsSafe crc32c sys none) (room : sys.rm.epoch + 2 < 2 ^ 63) where
    abbrev rm : Rowmap
    rm = sys.rm

    -- The state after the start, with the pages that the loop will write and its generation.
    begun :
        (todo dirty : List Bool) (gen gen' : ℕ)
        → length dirty ≡ rm.npages
        → ((p : ℕ) → p < rm.npages → get_or todo p false ≡ false → is_dirty rm p ≡ false)
        → IsSafe crc32c
            (record sys { rm = record rm { epoch = u64 (rm.epoch + 1); dirty = dirty; gen = gen } })
            (some (record {
              e = u64 (rm.epoch + 1);
              gen = gen';
              todo = todo;
              next = 0;
              failed = false;
            }))
    unfolding get
    begun todo dirty gen gen' size covered =
        let kept =
          λ (r : ℕ) (h : r < rm.nrows) (u : IsUsed rm r)
              (q : (get_or todo (page_of r) false && leb 0 (page_of r)) ≡ false).
            s.clean r h u (covered (page_of r) (page_of-lt r s.sized h) (ground arith)) refl in
        record {
          sized = record {
            some_rows = s.sized.some_rows;
            pages = s.sized.pages;
            bytes = s.sized.bytes;
            dirty_size = size;
            need_size = s.sized.need_size;
            skipped_size = s.sized.skipped_size;
          };
          epochs = omega (arith, s.epochs);
          small = omega arith;
          asked = λ p. omega (arith, s.asked p);
          clean = λ r h u c w. kept r h u w;
          settled = λ r h u n. s.settled r h u n;
          flying = (omega arith, λ r h u n w ok. kept r h u w);
        }

    -- The start of a flush, with or without memory for the snapshot.
    pub flush_begin-IsSafe :
        (alloc : Bool)
        → let (rm', f) = flush_begin alloc rm in IsSafe crc32c (record sys { rm = rm' }) (some f)
    unfolding flush_begin
    flush_begin-IsSafe true =
        let clean = replicate rm.npages false in
        let size = length-replicate rm.npages false in
        if_rule (λ (x : Rowmap × Flight). IsSafe crc32c (record sys { rm = x.0 }) (some x.1))
          (bitmap_empty rm.dirty) (λ _. begun rm.dirty clean rm.gen rm.gen size (λ p h c. c))
          (λ _. begun rm.dirty clean (u64 (rm.gen + 1)) (u64 (rm.gen + 1)) size (λ p h c. c))
    flush_begin-IsSafe false =
        begun (replicate rm.npages true) rm.dirty (u64 (rm.gen + 1)) (u64 (rm.gen + 1))
          s.sized.dirty_size (λ p h c. absurd (cc (get_or-replicate rm.npages true p false h)))

  -- Before the loop of a flush that writes every page, the marks may go.
  pub flush_clear-IsSafe :
      (sys : Sys) (f : Flight)
      → f.next ≡ 0
      → ((p : ℕ) → p < sys.rm.npages → todo_at f p ≡ true)
      → IsSafe crc32c sys (some f)
      → IsSafe crc32c (record sys { rm = flush_clear false sys.rm }) (some f)
  unfolding flush_clear get
  flush_clear-IsSafe sys f first all s = record {
    sized = record {
      some_rows = s.sized.some_rows;
      pages = s.sized.pages;
      bytes = s.sized.bytes;
      dirty_size = length-replicate sys.rm.npages false;
      need_size = s.sized.need_size;
      skipped_size = s.sized.skipped_size;
    };
    epochs = s.epochs;
    small = s.small;
    asked = s.asked;
    clean =
        λ r h u c w. absurd (ground (arith, first, w, all (page_of r) (page_of-lt r s.sized h)));
    settled = s.settled;
    flying = s.flying;
  }

  module _ {io : Io} (ok : IsIo io) (zeroes : KeepsZero crc32c) where
    -- A row of another page is on disk as it was.
    OnDisk-other :
        {id r p : ℕ} {pg : Page} {t : Slots} (s : Slots)
        → Changed (Took p pg) s t
        → p ≢ page_of r
        → OnDisk crc32c id r s
        → OnDisk crc32c id r t
    OnDisk-other {r} s c ne d = record {
      held = λ i n h l.
          let (m, at_i, took) = Changed-get i n c h in
          let old = d.held i m at_i (took.was_live l) in
          let same = took.keeps (page_of r) ne in
          record {
            gen = old.gen;
            is_good = ap (check crc32c _) same ∙ old.is_good;
            used_there =
                subst (λ (pg : Page). state_in pg.body (r % rows_per_page) ≢ state_u) (sym same)
                  old.used_there;
          };
    }

    -- A used row of the page that was written is on disk on every member that is still live.
    OnDisk-new :
        {r : ℕ} {t : Slots} (rm : Rowmap) (gen : ℕ) (s : Slots)
        → Changed (Took (page_of r) (seal crc32c rm.id (page_body rm.map (page_of r)) gen)) s t
        → IsUsed rm r
        → OnDisk crc32c rm.id r t
    unfolding get
    OnDisk-new {r} rm gen s c u = record {
      held = λ i n h l.
          let (m, at_i, took) = Changed-get i n c h in
          let same = took.has l in
          record {
            gen = gen;
            is_good = ap (check crc32c rm.id) same ∙ check-seal crc32c zeroes rm.id _ gen;
            used_there =
                subst (λ (pg : Page). state_in pg.body (r % rows_per_page) ≢ state_u) (sym same)
                  (unfold seal in rw (state_in-page_body rm.map r) u);
          };
    }

    module _ (sys : Sys) (f : Flight) (s : IsSafe crc32c sys (some f)) where
      abbrev p : ℕ
      p = f.next

      abbrev moved : Flight
      moved = record f { next = p + 1 }

      abbrev pg : Page
      pg = seal crc32c sys.rm.id (page_body sys.rm.map p) f.gen

      abbrev w : Written
      w = write_slots io none p pg 0 sys.slots

      -- A page that the loop has passed is pending before it only as the page of this round.
      was_pending :
          (q : ℕ)
          → (p ≢ q) ⊎ (todo_at f q ≡ false)
          → pending (some moved) q ≡ false
          → pending (some f) q ≡ false
      was_pending q other h = ground arith

      after_write :
          (r : ℕ)
          → IsUsed sys.rm r
          → (p ≢ page_of r → OnDisk crc32c sys.rm.id r sys.slots)
          → OnDisk crc32c sys.rm.id r w.slots
      after_write r u old = elim (ℕ_discrete p (page_of r)) [
        | yes same ↦
            OnDisk-new sys.rm f.gen sys.slots
              (subst
                (λ q.
                  Changed (Took q (seal crc32c sys.rm.id (page_body sys.rm.map q) f.gen)) sys.slots
                    w.slots)
                same (write_slots-Took ok p pg 0 sys.slots))
              u
        | no ne ↦ OnDisk-other sys.slots (write_slots-Took ok p pg 0 sys.slots) ne (old ne)
      ]

      passed : todo_at f p ≡ false → IsSafe crc32c sys (some moved)
      passed skip = record {
        sized = s.sized;
        epochs = s.epochs;
        small = s.small;
        asked = s.asked;
        clean = λ r h u c q. s.clean r h u c (was_pending (page_of r) (skipped (page_of r)) q);
        settled = s.settled;
        flying = (
          s.flying.0,
          λ r h u n q o. s.flying.1 r h u n (was_pending (page_of r) (skipped (page_of r)) q) o,
        );
      }
        where
          skipped : (q : ℕ) → (p ≢ q) ⊎ (todo_at f q ≡ false)
          skipped q = elim (ℕ_discrete p q) [
            | yes same ↦ inr (ap (todo_at f) (sym same) ∙ skip)
            | no ne ↦ inl ne
          ]

      module _ (counts : Counts) where
        took :
            IsSafe crc32c
              (record { rm = record sys.rm { counts = counts }; slots = w.slots })
              (some moved)
        unfolding get
        took = record {
          sized = counts-IsSized s.sized;
          epochs = s.epochs;
          small = s.small;
          asked = s.asked;
          clean = λ r h u c q.
              after_write r u (λ ne. s.clean r h u c (was_pending (page_of r) (inl ne) q));
          settled = λ r h u n. after_write r u (λ ne. s.settled r h u n);
          flying = (
            s.flying.0,
            λ r h u n q o.
                after_write r u (λ ne. s.flying.1 r h u n (was_pending (page_of r) (inl ne) q) o),
          );
        }

        lost :
            IsSafe crc32c
              (record {
                rm = record sys.rm { counts = counts; dirty = set sys.rm.dirty p true };
                slots = w.slots;
              })
              (some (record moved { failed = true }))
        unfolding get
        lost = record {
          sized = record {
            some_rows = s.sized.some_rows;
            pages = s.sized.pages;
            bytes = s.sized.bytes;
            dirty_size = length-set sys.rm.dirty p true ∙ s.sized.dirty_size;
            need_size = s.sized.need_size;
            skipped_size = s.sized.skipped_size;
          };
          epochs = s.epochs;
          small = s.small;
          asked = s.asked;
          clean = λ r h u c q. after_write r u (λ ne.
              s.clean r h u (still_clean (page_of r) ne c) (was_pending (page_of r) (inl ne) q));
          settled = λ r h u n. after_write r u (λ ne. s.settled r h u n);
          flying = (s.flying.0, λ r h u n q o. absurd (cc));
        }
          where
            still_clean :
                (q : ℕ)
                → p ≢ q
                → get_or (set sys.rm.dirty p true) q false ≡ false
                → is_dirty sys.rm q ≡ false
            still_clean q ne c = sym (get_or-set_ne sys.rm.dirty p q true false ne) ∙ c

      -- One page of a flush, whether it is skipped, taken by some member or by none.
      pub flush_page-IsSafe :
          let (sys', f') = flush_page crc32c io sys f in IsSafe crc32c sys' (some f')
      unfolding flush_page
      flush_page-IsSafe =
          if_rule After (not (todo_at f p)) (λ skip. passed (ground arith))
            (λ _. if_rule After (reached_none w) (λ _. lost _) (λ _. took _))
        where
          After : Sys × Flight → Type 0
          After x = IsSafe crc32c x.0 (some x.1)

  -- The end of a flush that has come to its last page.
  pub flush_end-IsSafe :
      (sys : Sys) (f : Flight)
      → sys.rm.npages ≤ f.next
      → IsSafe crc32c sys (some f)
      → IsSafe crc32c (record sys { rm = (flush_end sys.rm f).0 }) none
  unfolding flush_end get
  flush_end-IsSafe sys f last s = record {
    sized = record {
      some_rows = s.sized.some_rows;
      pages = s.sized.pages;
      bytes = s.sized.bytes;
      dirty_size = s.sized.dirty_size;
      need_size = s.sized.need_size;
      skipped_size = s.sized.skipped_size;
    };
    epochs = ground (arith, s.epochs, s.flying.0);
    small = s.small;
    asked = s.asked;
    clean = λ r h u c q. s.clean r h u c (not_pending r h);
    settled = λ r h u n. elim (Bool-cases f.failed) [
      | inl bad ↦ s.settled r h u (rw bad at n)
      | inr whole ↦ s.flying.1 r h u (rw whole at n) (not_pending r h) whole
    ];
    flying = tt;
  }
    where
      not_pending : (r : ℕ) → r < sys.rm.nrows → pending (some f) (page_of r) ≡ false
      not_pending r h = ground (arith, page_of-lt r s.sized h)
