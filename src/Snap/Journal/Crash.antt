-- ===== src/Snap/Journal/Crash.antt =====
-- A crash after a round of `rk_sn_commit_fn`: the ring as the round leaves it, read by `rk_sn_replay` of
-- km/raid_km-snapmeta.c.
use md_kmec.Base.{
  ℕ, ◌+◌, ◌≤◌, ◌<◌, ◌≡◌, refl, sym, ap, ◌∙◌, subst, Bool, true, false, not, ◌&&◌, ◌||◌, none, some,
  List, [], ◌∷◌, length, arith, if_rule,
}
use md_kmec.Snap.State.{Sn, Op}
use md_kmec.Snap.Journal.Batch.{
  Ring, Journal, Members, Commit, committed, undone, Pending, record_max, batch_records, pack,
  with_record, apply_all, any_data, put_records, settle, write_batch, commit, commit_round,
}
use md_kmec.Snap.Journal.Recover.{read_record, replay}
use md_kmec.Snap.Journal.Replay.{AllReplayable, put_all, pack_replays}
use md_kmec.Snap.Journal.Ring.{pack-length, replay-put_records}
use md_kmec.Snap.Journal.Settle.{IsClean, settle-IsSettled}
use md_kmec.Snap.Journal.Ahead.{IsAhead, apply_all-IsAhead}

-- A commit that succeeds put its records in a ring that has none after them, and applied its
-- operations.
abbrev IsCommitted : Sn → Journal → List (List ℕ) → List Op → Commit → Type 0
IsCommitted sn j bodies ops c =
    c.fate ≡ committed
    → (c.sn ≡ apply_all ops sn)
      × (c.journal.head ≡ j.head + length bodies)
      × (ring : Ring) × (c.journal.ring ≡ put_records bodies j.head ring)
      × (read_record ring (j.head + length bodies) ≡ none)

write_batch-IsCommitted :
    (m : Members) (sn : Sn) (j : Journal) (bodies : List (List ℕ)) (ops : List Op)
    → IsClean j
    → IsCommitted sn j bodies ops (write_batch m sn bodies ops (settle m j))
unfolding write_batch
write_batch-IsCommitted m sn j bodies ops clean =
    let r = settle m j in
    if_rule (IsCommitted sn j bodies ops) (not r.0 || (any_data ops && not m.flushes))
      (λ _ e. absurd (cc e))
      (λ on.
        if_rule (IsCommitted sn j bodies ops) (not m.takes) (λ _ e. absurd (cc e))
          (λ _ e.
            let (same, past) = settle-IsSettled m j clean (settled r.0 _ on) in
            (
              refl,
              ap (λ h. h + length bodies) same,
              r.1.ring,
              ap (λ h. put_records bodies h r.1.ring) same,
              past (j.head + length bodies) (omega arith),
            )))
  where
    settled : (a b : Bool) → (not a || b) ≡ false → a ≡ true
    settled true b h = refl
    settled false b h = absurd (cc h)

commit-IsCommitted :
    (m : Members) (sn : Sn) (j : Journal) (bodies : List (List ℕ)) (ops : List Op)
    → IsClean j
    → IsCommitted sn j bodies ops (commit m sn j bodies ops)
unfolding commit put_records
commit-IsCommitted m sn j [] ops clean =
    let end : j.head ≡ j.head + 0 = omega arith in
    λ e. (refl, end, j.ring, refl, ap (read_record j.ring) (sym end) ∙ clean.here)
commit-IsCommitted m sn j (body ∷ r) ops clean =
    if_rule (IsCommitted sn j (body ∷ r) ops) j.broken (λ _ e. absurd (cc e))
      (λ _. write_batch-IsCommitted m sn j (body ∷ r) ops clean)

few_records :
    (bodies : List (List ℕ))
    → length bodies + 0 ≤ batch_records + 1
    → (length bodies < 1025) × (length bodies ≤ 1024)
few_records bodies h = omega (arith, h)

nothing_put : length (put_all []) ≤ record_max
unfolding put_all
nothing_put = omega arith

-- After a round is committed, a crash and an assemble come back to it: replay from the round's first
-- record, on the state that the members had before, reads every record of the batch and nothing else,
-- and ends with the journal's head and a state of which the one in memory is ahead by no more than
-- rows that copy-on-writes had taken. The state in memory was ahead of the members' in the same way
-- before; the operations fit their records and apply one after the other to the members' state; the
-- ring has no record at the head, and none past a batch that a crash may have torn.
pub commit_round-replay :
    (taken : ℕ → Bool) (m : Members) (live disk : Sn) (j : Journal) (pending : List Pending)
    → IsAhead taken live disk
    → IsClean j
    → AllReplayable (with_record pending) disk
    → (commit_round m live j pending).0.fate ≡ committed
    → (later : Sn) × (replay 1025 true (commit_round m live j pending).0.journal.ring j.head disk
        ≡ some (later, (commit_round m live j pending).0.journal.head))
      × IsAhead taken (commit_round m live j pending).0.sn later
unfolding commit_round
commit_round-replay taken m live disk j pending ahead clean ok e =
    let p = pack (with_record pending) 0 none in
    let (s, h, ring, r, past) = commit-IsCommitted m live j p.0 p.1 clean e in
    let few = few_records p.0 (pack-length (with_record pending) 0 none (omega arith)) in
    let back = pack_replays (with_record pending) [] 0 disk nothing_put ok in
    let later = apply_all p.1 disk in
    let done = replay-put_records 1025 p.0 j.head ring disk later few.0 few.1 past back.0 in
    (
      later,
      ap (λ t. replay 1025 true t j.head disk) r ∙ done ∙ (λ i. some (later, sym h i)),
      subst (λ t. IsAhead taken t later) (sym s) (apply_all-IsAhead taken p.1 live disk ahead),
    )

-- A commit whose operations are undone leaves nothing to read at the head, and is the last to write.
abbrev IsUndone : Journal → Commit → Type 0
IsUndone j c =
    c.fate ≡ undone → (c.journal.broken ≡ true) × (read_record c.journal.ring j.head ≡ none)

-- Rounds one after the other, each with what is pending then and what the members do.
abbrev pub Rounds : Type 0
Rounds = List (Members × List Pending)

unfoldable pub commit_rounds : Rounds → Sn → Journal → Sn × Journal
unfolding commit_round
commit_rounds [] sn j = (sn, j)
commit_rounds ((m, pending) ∷ rounds) sn j =
    let c = (commit_round m sn j pending).0 in commit_rounds rounds c.sn c.journal
