-- ===== src/Reshape/Journal/Write.antt =====
-- A write of the next record: the members have it as their newest, or still the one before.
use md_kmec.Base.{
  ℕ, zero, suc, ◌+◌, ◌%◌, ◌<◌, ◌≡◌, ◌≢◌, ◌⊎◌, inl, inr, ⊎_elim, refl, sym, ap, ◌∙◌, subst, [], ◌∷◌,
  Bool, true, false, not, ◌||◌, none, some, ◌==◌, u64, if◌then◌else◌, if_rule, arith, Bool-cases,
  ℕ_discrete, ==_iff,
}
use md_kmec.Reshape.Journal.{
  Journal, Ctx, Band, Disk, Disks, ScratchIo, Outcome, eio, rj_csum, journal_record, is_valid,
  jread, write_disks, jwrite,
}
use md_kmec.Reshape.Journal.Newest.{
  AtMost, HasAt, here, there, IsRead, IsScratchIo, SlotLow, DiskLow, AllLow, nil, gap, one,
  IsNewest, jread-newest,
}

module _ (crc32c : Journal → ℕ) where
  pub journal_record-valid :
      (ctx : Ctx) (band : Band) → is_valid crc32c (journal_record crc32c ctx band) ≡ true
  unfolding is_valid journal_record rj_csum
  journal_record-valid ctx band = ground (
    arith,
    ==_iff (rj_csum crc32c (journal_record crc32c ctx band))
        (rj_csum crc32c (journal_record crc32c ctx band)),
  )

  module _ {io : ScratchIo} (ok : IsScratchIo crc32c io) (last new : Journal)
      (next : new.seq ≡ last.seq + 1) where
    abbrev slot : ℕ
    slot = new.seq % 2

    -- What was low for the record before is low for the new one, and so is the new one.
    rises :
        (rj : Journal)
        → (is_valid crc32c rj ≡ false) ⊎ AtMost last rj
        → (is_valid crc32c rj ≡ false) ⊎ AtMost new rj
    rises rj (inl bad) = inl bad
    rises rj (inr (inl old)) = inr (inl (omega arith))
    rises rj (inr (inr same)) = inr (inl (omega (arith, ap (λ (x : Journal). x.seq) same)))

    DiskLow-rises : (d : Disk) → DiskLow crc32c last d → DiskLow crc32c new d
    DiskLow-rises d l = record {
      low = λ up. (rises (d.slots 0) (l.low up).0, rises (d.slots 1) (l.low up).1);
    }

    module _ (d : Disk) (l : DiskLow crc32c last d) (up : d.faulty ≡ false) where
      abbrev after : Disk
      after = (io.write d slot new).1

      low_at : (i : ℕ) → i < 2 → SlotLow crc32c last d i
      low_at zero h = (l.low up).0
      low_at (suc zero) h = (l.low up).1
      low_at (suc (suc i)) h = absurd (omega arith)

      kept_at : (i : ℕ) → i < 2 → slot ≢ i → SlotLow crc32c last after i
      kept_at i h ne =
          subst (λ rj. (is_valid crc32c rj ≡ false) ⊎ AtMost last rj)
            (sym (ok.others d slot i new ne)) (low_at i h)

      -- The slot that was written: old, new, or not valid.
      written_at : (SlotLow crc32c last after slot) ⊎ (after.slots slot ≡ new)
      written_at =
          ⊎_elim
            (λ same. inl (
              subst (λ rj. (is_valid crc32c rj ≡ false) ⊎ AtMost last rj) (sym same)
                (low_at slot (omega arith))))
            (λ rest. ⊎_elim (λ is. inr is) (λ bad. inl (inl bad)) rest) (ok.torn d slot new)

      new_at : (i : ℕ) → i < 2 → SlotLow crc32c new after i
      new_at i h = elim (ℕ_discrete slot i) [
        | yes e ↦
            subst (SlotLow crc32c new after) e
              (⊎_elim (λ low. rises (after.slots slot) low) (λ is. inr (inr is)) written_at)
        | no ne ↦ rises (after.slots i) (kept_at i h ne)
      ]

      new_low : DiskLow crc32c new after
      new_low = record { low = λ h. (new_at 0 (omega arith), new_at 1 (omega arith)) }

      last_low : SlotLow crc32c last after slot → DiskLow crc32c last after
      last_low low = record { low = λ h. (both 0 (omega arith), both 1 (omega arith)) }
        where
          both : (i : ℕ) → i < 2 → SlotLow crc32c last after i
          both i h = elim (ℕ_discrete slot i) [
            | yes e ↦ subst (SlotLow crc32c last after) e low
            | no ne ↦ kept_at i h ne
          ]

    abbrev skips : Disk → Bool
    skips d = d.faulty || not d.in_sync

    AllLow-written :
        {disks : Disks}
        → AllLow crc32c last disks
        → AllLow crc32c new (write_disks crc32c io new slot disks).0
    unfolding write_disks
    AllLow-written nil = nil
    AllLow-written (gap rest) = gap (AllLow-written rest)
    AllLow-written (one {d} {disks} l rest) =
        if_rule (λ (x : Disks × ℕ). AllLow crc32c new x.0) (skips d)
          (λ _. one (DiskLow-rises d l) (AllLow-written rest))
          (λ on. one (new_low d l (ground arith)) (AllLow-written rest))

    -- Either some member has the new record, or the one before is still the newest of all.
    found_or_not :
        {disks : Disks}
        → AllLow crc32c last disks
        → HasAt new slot (write_disks crc32c io new slot disks).0
          ⊎ AllLow crc32c last (write_disks crc32c io new slot disks).0
    unfolding write_disks
    found_or_not nil = inr nil
    found_or_not (gap rest) =
        ⊎_elim (λ has. inl (there has)) (λ low. inr (gap low)) (found_or_not rest)
    found_or_not (one {d} {disks} l rest) =
        if_rule (λ (x : Disks × ℕ). HasAt new slot x.0 ⊎ AllLow crc32c last x.0) (skips d)
          (λ _. ⊎_elim (λ has. inl (there has)) (λ low. inr (one l low)) (found_or_not rest))
          (λ on.
            let up : d.faulty ≡ false = ground arith in
            ⊎_elim
              (λ low.
                ⊎_elim (λ has. inl (there has)) (λ low'. inr (one (last_low d l up low) low'))
                  (found_or_not rest))
              (λ is. inl (here (ok.flags d slot new ∙ up) is)) (written_at d l up))

    pub took_one :
        (disks : Disks)
        → (write_disks crc32c io new slot disks).1 ≢ 0
        → HasAt new slot (write_disks crc32c io new slot disks).0
    unfolding write_disks
    took_one [] h = absurd (h refl)
    took_one (none ∷ disks) h = there (took_one disks h)
    took_one (some d ∷ disks) h =
        if_rule (λ (x : Disks × ℕ). x.1 ≢ 0 → HasAt new slot x.0) (skips d)
          (λ _ h'. there (took_one disks h'))
          (λ on. took_here (took_one disks) (ground arith) (Bool-cases (io.write d slot new).0)) h
      where
        took_here :
            ((write_disks crc32c io new slot disks).1 ≢ 0
              → HasAt new slot (write_disks crc32c io new slot disks).0)
            → d.faulty ≡ false
            → ((io.write d slot new).0 ≡ true) ⊎ ((io.write d slot new).0 ≡ false)
            → (if (io.write d slot new).0
                then 1 + (write_disks crc32c io new slot disks).1
                else (write_disks crc32c io new slot disks).1)
              ≢ 0
            → HasAt new slot
                (some (io.write d slot new).1 ∷ (write_disks crc32c io new slot disks).0)
        took_here rest up (inl took) h' =
            here (ok.flags d slot new ∙ up) (ok.stored d slot new took)
        took_here rest up (inr lost) h' = there (rest (ground arith))

    -- The record before stays where it was: its slot is the other one.
    last_stays :
        {disks : Disks}
        → HasAt last (last.seq % 2) disks
        → HasAt last (last.seq % 2) (write_disks crc32c io new slot disks).0
    unfolding write_disks
    last_stays {disks} (there {d = none} has) = there (last_stays has)
    last_stays {disks} (there {d = some d} has) =
        if_rule (λ (x : Disks × ℕ). HasAt last (last.seq % 2) x.0) (skips d)
          (λ _. there (last_stays has)) (λ _. there (last_stays has))
    last_stays {disks} (here {d} up is) =
        if_rule (λ (x : Disks × ℕ). HasAt last (last.seq % 2) x.0) (skips d) (λ _. here up is)
          (λ _.
            here (ok.flags d slot new ∙ up)
              (ok.others d slot (last.seq % 2) new (omega arith) ∙ is))

  module _ {io : ScratchIo} (ok : IsScratchIo crc32c io) where
    -- After a write of the next record, with the counter one past the newest: the new record is the
    -- newest where the write says so, and where it fails it is one of the two.
    pub jwrite-IsNewest :
        (disks : Disks) (last : Journal) (ctx : Ctx) (band : Band)
        → IsNewest crc32c disks last
        → ctx.jseq ≡ last.seq + 1
        → let (disks', (ctx', out)) = jwrite crc32c io true disks ctx band in
          let new = journal_record crc32c ctx band in
          (IsNewest crc32c disks' new ⊎ IsNewest crc32c disks' last)
          × ((out ≡ eio) ⊎ (IsNewest crc32c disks' new × (ctx'.jseq ≡ u64 (new.seq + 1))))
    unfolding jwrite journal_record
    jwrite-IsNewest disks last ctx band n next =
        let new = journal_record crc32c ctx band in
        let next' : new.seq ≡ last.seq + 1 = unfold journal_record in next in
        let wrote = write_disks crc32c io new (ctx.jseq % 2) disks in
        let low = AllLow-written ok last new next' n.all_low in
        let newest : HasAt new (new.seq % 2) wrote.0 → IsNewest crc32c wrote.0 new =
          λ has. record { valid = journal_record-valid ctx band; all_low = low; held = has } in
        let either : IsNewest crc32c wrote.0 new ⊎ IsNewest crc32c wrote.0 last =
          ⊎_elim (λ has. inl (newest has))
            (λ old. inr (record {
              valid = n.valid;
              all_low = old;
              held = last_stays ok last new next' n.held;
            }))
            (found_or_not ok last new next' n.all_low) in
        if_rule
          (λ (x : Disks × (Ctx × Outcome)).
            (IsNewest crc32c x.0 new ⊎ IsNewest crc32c x.0 last)
            × ((x.1.1 ≡ eio) ⊎ (IsNewest crc32c x.0 new × (x.1.0.jseq ≡ u64 (new.seq + 1)))))
          (wrote.1 == 0) (λ _. (either, inl refl))
          (λ some_took. (
            either,
            inr (
              newest (took_one ok last new next' disks (ground arith)),
              unfold journal_record in refl,
            ),
          ))

    -- The record that `raidkm_reshape_jread` finds after a write of the next one: that one, where the
    -- write succeeds, and that one or the one before, where every member fails it. The counter is
    -- one past the newest record, which stands in its slot; of the members that then have one of the
    -- two records in its slot, one at least can be read.
    pub jread-jwrite :
        (disks : Disks) (last : Journal) (ctx : Ctx) (band : Band)
        → IsNewest crc32c disks last
        → ctx.jseq ≡ last.seq + 1
        → IsRead io (journal_record crc32c ctx band) (jwrite crc32c io true disks ctx band).0
        → IsRead io last (jwrite crc32c io true disks ctx band).0
        → let (disks', (ctx', out)) = jwrite crc32c io true disks ctx band in
          let new = journal_record crc32c ctx band in
          ((jread crc32c io disks' ≡ some new) ⊎ (jread crc32c io disks' ≡ some last))
          × ((out ≡ eio) ⊎ (jread crc32c io disks' ≡ some new))
    jread-jwrite disks last ctx band n next reads_new reads_last =
        let (either, result) = jwrite-IsNewest disks last ctx band n next in
        (
          ⊎_elim (λ new. inl (jread-newest crc32c ok new reads_new))
              (λ old. inr (jread-newest crc32c ok old reads_last)) either,
          ⊎_elim (λ failed. inl failed) (λ new. inr (jread-newest crc32c ok new.0 reads_new))
              result,
        )
