-- ===== src/Rowmap/Wait/Done.antt =====
-- A flush that fails has failed every member, so the next one has nothing to wait for: the wait for
-- a row ends after two flushes.
use md_kmec.Base.{
  ℕ, zero, suc, ◌+◌, ◌/◌, ◌^◌, ◌≤◌, ◌<◌, ◌≡◌, refl, List, [], ◌∷◌, Bool, true, false, not, ◌&&◌,
  none, some, u64, leb, if_rule, arith, Bool-cases, inl, inr, ◌∙◌,
}
use md_kmec.Rowmap.Pack.{page_of}
use md_kmec.Rowmap.Page.{Page, seal, page_body}
use md_kmec.Rowmap.State.{Rowmap, need_of}
use md_kmec.Rowmap.Member.{Slots, Io, usable, write_slots, write_member}
use md_kmec.Rowmap.Flush.{
  Sys, Flight, todo_at, reached_none, is_past, flush_begin, flush_clear, flush_page, flush_pages,
  flush_end, flush, bitmap_empty,
}
use md_kmec.Rowmap.Wait.{wait_loop, wait_row}

-- Every member has failed.
unfoldable pub none_usable : Slots → Bool
none_usable [] = true
none_usable (none ∷ slots) = none_usable slots
none_usable (some m ∷ slots) = not (usable m) && none_usable slots

module _ (io : Io) (p : ℕ) (pg : Page) where
  write_slots-none :
      (i : ℕ) (slots : Slots)
      → none_usable slots ≡ true
      → let w = write_slots io none p pg i slots in (w.tried ≡ 0) × (none_usable w.slots ≡ true)
  unfolding write_slots none_usable
  write_slots-none i [] h = (refl, refl)
  write_slots-none i (none ∷ slots) h = write_slots-none (i + 1) slots h
  write_slots-none i (some m ∷ slots) h =
      let off : usable m ≡ false = ground arith in
      let rest = write_slots-none (i + 1) slots (ground arith) in
      rw (off, write_slots) (rest.0, ground (arith, rest.1))

  -- Where no member took the page, all have failed.
  write_slots-failed :
      (i : ℕ) (slots : Slots)
      → (write_slots io none p pg i slots).ok ≡ 0
      → none_usable (write_slots io none p pg i slots).slots ≡ true
  unfolding write_slots none_usable write_member
  write_slots-failed i [] h = refl
  write_slots-failed i (none ∷ slots) h = write_slots-failed (i + 1) slots h
  write_slots-failed i (some m ∷ slots) h = ground (arith, write_slots-failed (i + 1) slots)

module _ (crc32c : List ℕ → ℕ → ℕ → ℕ) (io : Io) where
  -- What a page of a flush keeps.
  record Kept (sys sys' : Sys) (f f' : Flight) : Type 0 where
    pub epoch : sys'.rm.epoch ≡ sys.rm.epoch
    pub durable : sys'.rm.durable ≡ sys.rm.durable
    pub e : f'.e ≡ f.e
    pub lost :
        (f.failed ≡ true → none_usable sys.slots ≡ true)
        → f'.failed ≡ true
        → none_usable sys'.slots ≡ true
    pub none_left :
        none_usable sys.slots ≡ true → (f'.failed ≡ f.failed) × (none_usable sys'.slots ≡ true)

  flush_page-Kept :
      (sys : Sys) (f : Flight) → let (sys', f') = flush_page crc32c io sys f in Kept sys sys' f f'
  unfolding flush_page
  flush_page-Kept sys f =
      let pg = seal crc32c sys.rm.id (page_body sys.rm.map f.next) f.gen in
      let w = write_slots io none f.next pg 0 sys.slots in
      let dead = write_slots-none io f.next pg 0 sys.slots in
      let all = write_slots-failed io f.next pg 0 sys.slots in
      if_rule (λ (x : Sys × Flight). Kept sys x.0 f x.1) (not (todo_at f f.next))
        (λ _. record {
          epoch = refl;
          durable = refl;
          e = refl;
          lost = λ h. h;
          none_left = λ h. (refl, h);
        })
        (λ _.
          if_rule (λ (x : Sys × Flight). Kept sys x.0 f x.1) (reached_none w)
            (λ fell. record {
              epoch = refl;
              durable = refl;
              e = refl;
              lost = λ h k. all (ground arith);
              none_left = λ h. absurd (ground (arith, dead h));
            })
            (λ _. record {
              epoch = refl;
              durable = refl;
              e = refl;
              lost = λ h k. (dead (h k)).1;
              none_left = λ h. (refl, (dead h).1);
            }))

  flush_pages-Kept :
      (left : ℕ) (sys : Sys) (f : Flight)
      → let (sys', f') = flush_pages crc32c io left sys f in Kept sys sys' f f'
  unfolding flush_pages
  flush_pages-Kept zero sys f = record {
    epoch = refl;
    durable = refl;
    e = refl;
    lost = λ h. h;
    none_left = λ h. (refl, h);
  }
  flush_pages-Kept (suc left) sys f =
      let one = flush_page-Kept sys f in
      let next = flush_page crc32c io sys f in
      let rest = flush_pages-Kept left next.0 next.1 in
      record {
        epoch = rest.epoch ∙ one.epoch;
        durable = rest.durable ∙ one.durable;
        e = rest.e ∙ one.e;
        lost = λ h. rest.lost (one.lost h);
        none_left = λ h.
            let (same, dead) = one.none_left h in
            let (same', dead') = rest.none_left dead in (same' ∙ same, dead');
      }

  flush_begin-lem :
      (alloc : Bool) (rm : Rowmap)
      → let (rm', f) = flush_begin alloc rm in
        (rm'.epoch ≡ u64 (rm.epoch + 1)) × (f.e ≡ u64 (rm.epoch + 1)) × (f.failed ≡ false)
  unfolding flush_begin
  flush_begin-lem alloc rm =
      if_rule
        (λ (x : Rowmap × Flight).
          (x.0.epoch ≡ u64 (rm.epoch + 1)) × (x.1.e ≡ u64 (rm.epoch + 1)) × (x.1.failed ≡ false))
        (alloc && bitmap_empty rm.dirty) (λ _. (refl, refl, refl)) (λ _. (refl, refl, refl))

  -- A flush makes the next epoch durable, unless every member has failed; and where every member
  -- has failed it does too.
  pub flush-lem :
      (alloc : Bool) (sys : Sys)
      → let (sys', done) = flush crc32c io alloc sys in
        (sys'.rm.epoch ≡ u64 (sys.rm.epoch + 1))
        × (done ≡ true → sys'.rm.durable ≡ u64 (sys.rm.epoch + 1))
        × (done ≡ false → none_usable sys'.slots ≡ true)
        × (none_usable sys.slots ≡ true → done ≡ true)
  unfolding flush flush_end flush_clear
  flush-lem alloc sys =
      let begun = flush_begin alloc sys.rm in
      let start = flush_begin-lem alloc sys.rm in
      let kept =
        flush_pages-Kept begun.0.npages (record sys { rm = flush_clear alloc begun.0 }) begun.1 in
      (
        kept.epoch ∙ start.0,
        λ h. ground (arith, kept.e, start.1),
        λ h. kept.lost (λ k. absurd (cc (start.2))) (ground arith),
        λ h. ground (arith, (kept.none_left h).0, start.2),
      )

  is_past-true :
      {need durable : ℕ} → durable < 2 ^ 63 → need ≤ durable → is_past need durable ≡ true
  is_past-true small h = ground arith

  module _ (alloc : Bool) (need : ℕ) where
    record Ends (fuel : ℕ) (sys : Sys) : Type 0 where
      pub last : Sys
      pub returns : wait_loop crc32c io alloc fuel need sys ≡ some last
      pub past : is_past need last.rm.durable ≡ true

    abbrev counted : Sys → Sys
    counted sys = record sys {
      rm = record sys.rm {
        counts = record sys.rm.counts { waits = u64 (sys.rm.counts.waits + 1) };
      };
    }

    abbrev flushed : Sys → Sys × Bool
    flushed sys = flush crc32c io alloc (counted sys)

    Ends-now : (n : ℕ) (sys : Sys) → is_past need sys.rm.durable ≡ true → Ends (suc n) sys
    unfolding wait_loop
    Ends-now n sys h = record { last = sys; returns = rw (h, wait_loop) refl; past = h }

    Ends-later : (n : ℕ) (sys : Sys) → Ends n (flushed sys).0 → Ends (suc n) sys
    unfolding wait_loop
    Ends-later n sys later = elim (Bool-cases (is_past need sys.rm.durable)) [
      | inl e ↦ Ends-now n sys e
      | inr e ↦ record {
        last = later.last;
        returns = rw (e, wait_loop) later.returns;
        past = later.past;
      }
    ]

    Ends-done :
        (n : ℕ) (sys : Sys)
        → sys.rm.epoch + 1 < 2 ^ 63
        → need ≤ sys.rm.epoch + 1
        → (flushed sys).1 ≡ true
        → Ends (suc (suc n)) sys
    Ends-done n sys room asked done =
        let durable = (flush-lem alloc (counted sys)).1 done in
        Ends-later (suc n) sys (
          Ends-now n (flushed sys).0 (
            is_past-true {durable = (flushed sys).0.rm.durable} (omega (arith, durable))
              (omega (arith, durable))))

    Ends-any : (sys : Sys) → sys.rm.epoch + 2 < 2 ^ 63 → need ≤ sys.rm.epoch + 1 → Ends 3 sys
    Ends-any sys room asked =
        let got = flush-lem alloc (counted sys) in
        elim (Bool-cases (flushed sys).1) [
          | inl done ↦ Ends-done 1 sys (omega arith) asked done
          | inr failed ↦
              let sys' = (flushed sys).0 in
              let next = flush-lem alloc (counted sys') in
              Ends-later 2 sys (
                Ends-done 0 sys' (omega (arith, got.0)) (omega (arith, got.0))
                  (next.3 (got.2 failed)))
        ]

  -- `raidkm_rowmap_wait_row` ends after at most two flushes, whichever writes fail, and what the
  -- row's page needed is then durable: for a row of the map whose need is not past the next epoch,
  -- with the epoch far from wrapping.
  pub wait_row-ends :
      (alloc : Bool) (sys : Sys) (msect : ℕ)
      → msect / sys.rm.chunk_sectors < sys.rm.nrows
      → sys.rm.epoch + 2 < 2 ^ 63
      → need_of sys.rm (page_of (msect / sys.rm.chunk_sectors)) ≤ sys.rm.epoch + 1
      → (sys' : Sys) × (wait_row crc32c io alloc 3 sys msect ≡ some sys')
        × (is_past (need_of sys.rm (page_of (msect / sys.rm.chunk_sectors))) sys'.rm.durable ≡ true)
  unfolding wait_row
  wait_row-ends alloc sys msect inside room asked =
      let row = msect / sys.rm.chunk_sectors in
      let ends = Ends-any alloc (need_of sys.rm (page_of row)) sys room asked in
      let within : leb sys.rm.nrows row ≡ false = ground arith in
      (ends.last, rw (within, wait_row) ends.returns, ends.past)
