-- ===== src/Reshape/Tests.antt =====
-- Runs of the reshape journal on two members and a failed one, and the theorems at that array.
use md_kmec.Base.{
  ℕ, ◌+◌, ◌≡◌, ◌⊎◌, inl, inr, refl, [], ◌∷◌, Bool, true, false, none, some, ◌==◌, if◌then◌else◌,
  arith, u64,
}
use md_kmec.Reshape.Journal.{
  Journal, Ctx, Band, Disk, Disks, ScratchIo, done, eio, idle, rj_csum, journal_record, is_valid,
  jread, read_disks, read_slot, taken, newer, write_disks, jwrite, unless_error, init_slots,
  journal_init,
}
use md_kmec.Reshape.Journal.Newest.{
  here, seen, HasRead, IsRead, IsScratchIo, DiskLow, nil, gap, one, IsNewest,
}
use md_kmec.Reshape.Journal.Write.{journal_record-valid, jread-jwrite}
use md_kmec.Reshape.Journal.Init.{all_in_sync, jread-journal_init}

-- Device 3 cannot be read.
abbrev scratch : ScratchIo
scratch = record {
  write = λ d slot rj. (true, record d { slots = λ i. if slot == i then rj else d.slots i });
  read = λ d slot. if d.dev == 3 then none else some (d.slots slot);
}

-- A checksum of a record that reads its number and its phase.
abbrev sum : Journal → ℕ
sum rj = rj.seq + rj.phase + 1

scratch-IsScratchIo : IsScratchIo sum scratch
scratch-IsScratchIo = record {
  stored = λ d slot rj h. ground arith;
  torn = λ d slot rj. inr (inl (ground arith));
  others = λ d slot other rj ne. ground arith;
  flags = λ d slot rj. refl;
  sync_flag = λ d slot rj. refl;
  reads = λ d slot. may_fail d slot (d.dev == 3);
}
  where
    may_fail :
        (d : Disk) (slot : ℕ) (b : Bool)
        → ((if b then none else some (d.slots slot)) ≡ none)
          ⊎ ((if b then none else some (d.slots slot)) ≡ some (d.slots slot))
    may_fail d slot true = inl refl
    may_fail d slot false = inr refl

abbrev ctx : Ctx
ctx = record {
  jseq = 6;
  old_m = 2;
  new_m = 3;
  old_raid_disks = 6;
  new_raid_disks = 7;
  chunk_sectors = 128;
  scratch_rows = 4;
  kind = 0;
  dcl_g = 0;
  dcl_s = 0;
  dcl_nbase = 0;
  dcl_old_g = 0;
  dcl_old_s = 0;
  dcl_old_seed = 0;
  dcl_new_seed = 0;
  frontier_row = 0;
}

abbrev stage : Band
stage = record { phase = 1; start_chunk = 16; chunks = 4; csum = 99; position = 2048 }

abbrev last : Journal
last = journal_record sum (record ctx { jseq = 5 }) stage

-- The newest record in both slots, of which only the second is looked at.
abbrev member : Disk
member = record { dev = 1; faulty = false; in_sync = true; slots = λ i. last }

abbrev disks : Disks
disks =
    some member
    ∷ none
    ∷ some (record member { faulty = true; in_sync = false })
    ∷ some (record member { dev = 3 })
    ∷ []

disks-IsNewest : IsNewest sum disks last
unfolding journal_record
disks-IsNewest =
    let low : DiskLow sum last member = record { low = λ up. (inr (inr refl), inr (inr refl)) } in
    let failed : DiskLow sum last (record member { faulty = true; in_sync = false }) = record {
      low = λ up. (inr (inr refl), inr (inr refl));
    } in
    let unread : DiskLow sum last (record member { dev = 3 }) = record {
      low = λ up. (inr (inr refl), inr (inr refl));
    } in
    record {
      valid = unfold journal_record in journal_record-valid sum (record ctx { jseq = 5 }) stage;
      all_low = one low (gap (one failed (one unread nil)));
      held = here refl refl;
    }

first_seen :
    (r : Journal) (slot : ℕ) (d : Disk) (rest : Disks)
    → d.faulty ≡ false
    → d.slots slot ≡ r
    → d.dev ≡ 1
    → HasRead scratch r slot (some d ∷ rest)
first_seen r slot d rest up is first = seen up is (λ e. let f = rw first at e in cc f)

journal_run :
    (jread sum scratch (jwrite sum scratch true disks ctx idle).0
      ≡ some (journal_record sum ctx idle))
    × ((jwrite sum scratch false disks ctx idle).0 ≡ disks)
unfolding jread read_disks read_slot taken newer is_valid rj_csum journal_record jwrite write_disks
journal_run = (refl, refl)

ctx_next : ctx.jseq ≡ last.seq + 1
unfolding journal_record
ctx_next = refl

jread-jwrite_example :
    let (disks', (ctx', out)) = jwrite sum scratch true disks ctx idle in
    let new = journal_record sum ctx idle in
    ((jread sum scratch disks' ≡ some new) ⊎ (jread sum scratch disks' ≡ some last))
    × ((out ≡ eio) ⊎ (jread sum scratch disks' ≡ some new))
jread-jwrite_example =
    jread-jwrite sum scratch-IsScratchIo disks last ctx idle disks-IsNewest ctx_next new_read
      last_read
  where
    new_read :
        IsRead scratch (journal_record sum ctx idle) (jwrite sum scratch true disks ctx idle).0
    new_read = unfold jwrite write_disks journal_record in λ h. first_seen _ _ _ _ refl refl refl

    last_read : IsRead scratch last (jwrite sum scratch true disks ctx idle).0
    last_read = unfold jwrite write_disks journal_record in λ h. first_seen _ _ _ _ refl refl refl

init-done : (journal_init sum scratch true disks ctx).1.1 ≡ done
unfolding journal_init init_slots unless_error jwrite write_disks
init-done = refl

disks-all_in_sync : all_in_sync disks ≡ true
unfolding all_in_sync
disks-all_in_sync = refl

jread-journal_init_example :
    jread sum scratch (journal_init sum scratch true disks ctx).0
    ≡ some (journal_record sum (record ctx { jseq = u64 (ctx.jseq + 1) }) idle)
jread-journal_init_example =
    jread-journal_init sum scratch-IsScratchIo (λ d slot rj. refl) disks ctx disks-all_in_sync
      (omega arith) init-done fresh_read
  where
    fresh_read :
        IsRead scratch
          (journal_record sum (record ctx { jseq = u64 (ctx.jseq + 1) }) idle)
          (journal_init sum scratch true disks ctx).0
    fresh_read =
        unfold journal_init init_slots unless_error jwrite write_disks journal_record in
        λ h. first_seen _ _ _ _ refl refl refl
