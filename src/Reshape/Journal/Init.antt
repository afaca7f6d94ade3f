-- ===== src/Reshape/Journal/Init.antt =====
-- The start of a journal: whatever the scratch zones held, the fresh record is the newest.
use md_kmec.Base.{
  ℕ, suc, ◌+◌, ◌%◌, ◌^◌, ◌<◌, ◌≡◌, ◌≢◌, ◌⊎◌, inl, inr, ⊎_elim, refl, sym, ap, ◌∙◌, subst, [], ◌∷◌,
  Bool, true, false, not, ◌&&◌, ◌||◌, none, some, ◌==◌, u64, if_rule, arith, ℕ_discrete,
}
use md_kmec.Reshape.Journal.{
  Journal, Ctx, Band, Disk, Disks, ScratchIo, Outcome, done, eio, enomem, idle, journal_record,
  jread, write_disks, jwrite, init_slots, journal_init, unless_error,
}
use md_kmec.Reshape.Journal.Newest.{
  HasAt, IsRead, IsScratchIo, SlotLow, AllLow, nil, gap, one, IsNewest, jread-newest,
}
use md_kmec.Reshape.Journal.Write.{took_one, journal_record-valid}

-- Every member that is not failed is in sync.
unfoldable pub all_in_sync : Disks → Bool
all_in_sync [] = true
all_in_sync (none ∷ disks) = all_in_sync disks
all_in_sync (some d ∷ disks) = (d.faulty || d.in_sync) && all_in_sync disks

module _ (crc32c : Journal → ℕ) {io : ScratchIo} (ok : IsScratchIo crc32c io)
    (works : (d : Disk) (slot : ℕ) (rj : Journal) → (io.write d slot rj).0 ≡ true) where
  -- Every member that is not failed has the record in the slot.
  data AllHave (r : Journal) (slot : ℕ) : Disks → Type 0 where
    over : AllHave r slot []
    skip : {disks : Disks} → AllHave r slot disks → AllHave r slot (none ∷ disks)
    with_disk :
        {d : Disk} {disks : Disks}
        → (d.faulty ≡ true) ⊎ (d.slots slot ≡ r)
        → AllHave r slot disks
        → AllHave r slot (some d ∷ disks)

  write_disks-AllHave :
      (r : Journal) (slot : ℕ) (disks : Disks)
      → all_in_sync disks ≡ true
      → AllHave r slot (write_disks crc32c io r slot disks).0
        × (all_in_sync (write_disks crc32c io r slot disks).0 ≡ true)
  unfolding write_disks all_in_sync
  write_disks-AllHave r slot [] h = (over, refl)
  write_disks-AllHave r slot (none ∷ disks) h =
      let (all, sync) = write_disks-AllHave r slot disks h in (skip all, sync)
  write_disks-AllHave r slot (some d ∷ disks) h =
      let (all, sync) = write_disks-AllHave r slot disks (ground arith) in
      if_rule (λ (x : Disks × ℕ). AllHave r slot x.0 × (all_in_sync x.0 ≡ true))
        (d.faulty || not d.in_sync) (λ off. (with_disk (inl (ground arith)) all, ground arith))
        (λ on. (
          with_disk (inr (ok.stored d slot r (works d slot r))) all,
          ground (arith, ok.flags d slot r, ok.sync_flag d slot r),
        ))

  -- A write of with_disk slot keeps the other.
  AllHave-kept :
      {r : Journal} {slot : ℕ} (new : Journal) (other : ℕ) {disks : Disks}
      → other ≢ slot
      → AllHave r slot disks
      → AllHave r slot (write_disks crc32c io new other disks).0
  unfolding write_disks
  AllHave-kept new other ne over = over
  AllHave-kept new other ne (skip all) = skip (AllHave-kept new other ne all)
  AllHave-kept {r} {slot} new other ne (with_disk {d} {disks} has all) =
      if_rule (λ (x : Disks × ℕ). AllHave r slot x.0) (d.faulty || not d.in_sync)
        (λ _. with_disk has (AllHave-kept new other ne all))
        (λ _.
          with_disk
            (⊎_elim (λ bad. inl (ok.flags d other new ∙ bad))
              (λ is. inr (ok.others d other slot new ne ∙ is)) has)
            (AllHave-kept new other ne all))

  -- With an older record in the one slot and the new one in the other, nothing newer is left.
  AllHave-AllLow :
      (old new : Journal) (a b : ℕ) {disks : Disks}
      → old.seq < new.seq
      → a < 2
      → b < 2
      → a ≢ b
      → AllHave old a disks
      → AllHave new b disks
      → AllLow crc32c new disks
  AllHave-AllLow old new a b lt ha hb ne over over = nil
  AllHave-AllLow old new a b lt ha hb ne (skip all) (skip all') =
      gap (AllHave-AllLow old new a b lt ha hb ne all all')
  AllHave-AllLow old new a b lt ha hb ne (with_disk {d} has all) (with_disk has' all') =
      one
        (record {
          low = λ up.
              let is_old : d.slots a ≡ old = stands up has in
              let is_new : d.slots b ≡ new = stands up has' in
              (slot_low is_old is_new 0 (omega arith), slot_low is_old is_new 1 (omega arith));
        })
        (AllHave-AllLow old new a b lt ha hb ne all all')
    where
      stands :
          {r : Journal} {slot : ℕ}
          → d.faulty ≡ false
          → (d.faulty ≡ true) ⊎ (d.slots slot ≡ r)
          → d.slots slot ≡ r
      stands up (inl bad) = absurd (cc)
      stands up (inr is) = is

      slot_low : d.slots a ≡ old → d.slots b ≡ new → (i : ℕ) → i < 2 → SlotLow crc32c new d i
      slot_low is_old is_new i h = elim (ℕ_discrete i b) [
        | yes e ↦ inr (inr (ap d.slots e ∙ is_new))
        | no no_b ↦
            let e : i ≡ a = omega arith in
            let here : d.slots i ≡ old = ap d.slots e ∙ is_old in
            inr (inl (omega (arith, ap (λ (x : Journal). x.seq) here)))
      ]

  -- A write that returns 0.
  jwrite-done :
      (disks : Disks) (ctx : Ctx) (band : Band)
      → (jwrite crc32c io true disks ctx band).1.1 ≡ done
      → let wrote = write_disks crc32c io (journal_record crc32c ctx band) (ctx.jseq % 2) disks in
        (wrote.1 ≢ 0)
        × (jwrite crc32c io true disks ctx band
            ≡ (wrote.0, (record ctx { jseq = u64 (ctx.jseq + 1) }, done)))
  unfolding jwrite
  jwrite-done disks ctx band h =
      let wrote = write_disks crc32c io (journal_record crc32c ctx band) (ctx.jseq % 2) disks in
      let all : Disks × (Ctx × Outcome) =
        (wrote.0, (record ctx { jseq = u64 (ctx.jseq + 1) }, done)) in
      if_rule (λ (x : Disks × (Ctx × Outcome)). x.1.1 ≡ done → (wrote.1 ≢ 0) × (x ≡ all))
        (wrote.1 == 0) (λ _ h'. absurd (cc h')) (λ some_took _. (ground arith, refl)) h

  unless_error-done :
      (out : Outcome) (wrote rest : Disks × (Ctx × Outcome))
      → wrote.1.1 ≡ out
      → (unless_error out wrote rest).1.1 ≡ done
      → (out ≡ done) × (unless_error out wrote rest ≡ rest)
  unfolding unless_error
  unless_error-done done wrote rest e h = (refl, refl)
  unless_error-done eio wrote rest e h = absurd (cc (sym e ∙ h))
  unless_error-done enomem wrote rest e h = absurd (cc (sym e ∙ h))

  init_slots-done :
      (left : ℕ) (disks : Disks) (ctx : Ctx)
      → (init_slots crc32c io true (suc left) disks ctx).1.1 ≡ done
      → let ctx' = record ctx { jseq = u64 (ctx.jseq + 1) } in
        let wrote = write_disks crc32c io (journal_record crc32c ctx idle) (ctx.jseq % 2) disks in
        (wrote.1 ≢ 0)
        × (init_slots crc32c io true (suc left) disks ctx
            ≡ init_slots crc32c io true left wrote.0 ctx')
  unfolding init_slots
  init_slots-done left disks ctx h =
      let wrote = jwrite crc32c io true disks ctx idle in
      let (out, go) =
        unless_error-done wrote.1.1 wrote (init_slots crc32c io true left wrote.0 wrote.1.0) refl
          h in
      let (took, is) = jwrite-done disks ctx idle out in
      (took, go ∙ ap (λ (x : Disks × (Ctx × Outcome)). init_slots crc32c io true left x.0 x.1.0) is)

  -- `raidkm_reshape_journal_init` on members whose writes succeed, none of them out of sync: where it
  -- returns 0 the fresh record, with the second of its numbers, is what `raidkm_reshape_jread` finds,
  -- whatever records the members held before, if one of the members that have it can be read.
  pub jread-journal_init :
      (disks : Disks) (ctx : Ctx)
      → all_in_sync disks ≡ true
      → ctx.jseq + 2 < 2 ^ 64
      → (journal_init crc32c io true disks ctx).1.1 ≡ done
      → IsRead io
          (journal_record crc32c (record ctx { jseq = u64 (ctx.jseq + 1) }) idle)
          (journal_init crc32c io true disks ctx).0
      → jread crc32c io (journal_init crc32c io true disks ctx).0
        ≡ some (journal_record crc32c (record ctx { jseq = u64 (ctx.jseq + 1) }) idle)
  unfolding journal_init
  jread-journal_init disks ctx sync room h reads =
      let ctx1 = record ctx { jseq = u64 (ctx.jseq + 1) } in
      let old = journal_record crc32c ctx idle in
      let new = journal_record crc32c ctx1 idle in
      let a = ctx.jseq % 2 in
      let b = ctx1.jseq % 2 in
      let first = init_slots-done 1 disks ctx h in
      let disks1 = (write_disks crc32c io old a disks).0 in
      let h1 = sym (ap (λ (x : Disks × (Ctx × Outcome)). x.1.1) (first.1)) ∙ h in
      let second = init_slots-done 0 disks1 ctx1 h1 in
      let disks2 = (write_disks crc32c io new b disks1).0 in
      let (have, sync1) = write_disks-AllHave old a disks sync in
      let (have', _) = write_disks-AllHave new b disks1 sync1 in
      let seqs : (old.seq ≡ ctx.jseq) × (new.seq ≡ ctx1.jseq) =
        unfold journal_record in (refl, refl) in
      let next : new.seq ≡ old.seq + 1 = omega (arith, seqs) in
      let slot_b : new.seq % 2 ≡ b = ap (λ s. s % 2) (seqs.1) in
      let newest : IsNewest crc32c disks2 new = record {
        valid = journal_record-valid crc32c ctx1 idle;
        all_low =
            AllHave-AllLow old new a b (omega arith) (omega arith) (omega arith) (omega arith)
              (AllHave-kept new b (omega arith) have) have';
        held =
            subst (λ s. HasAt new (new.seq % 2) (write_disks crc32c io new s disks1).0) slot_b
              (took_one crc32c ok old new next disks1
                (subst (λ s. (write_disks crc32c io new s disks1).1 ≢ 0) (sym slot_b) second.0));
      } in
      let reads_end =
        subst (λ (x : Disks × (Ctx × Outcome)). IsRead io new x.0) (first.1 ∙ second.1) reads in
      ap (λ (x : Disks × (Ctx × Outcome)). jread crc32c io x.0) (first.1 ∙ second.1)
      ∙ unfold init_slots in jread-newest crc32c ok newest reads_end
