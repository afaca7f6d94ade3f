-- ===== src/Snap/Journal/Settle.antt =====
-- `rk_sn_settle` of km/raid_km-snapmeta.c: what the ring past the head is like when a batch is written.
use md_kmec.Base.{
  ℕ, zero, suc, ◌+◌, ◌≤◌, ◌<◌, ◌≡◌, ◌⊎◌, ltb, refl, ap, ◌∙◌, Bool, true, false, not, ◌&&◌, none,
  ◌==◌, if◌then◌else◌, arith, if_rule, Bool-cases, inl, inr, update, ==_iff,
}
use md_kmec.Snap.Region.{journal_slot}
use md_kmec.Snap.Journal.Batch.{
  Ring, Journal, Members, batch_records, zero_slots, scrub_ring, settle,
}
use md_kmec.Snap.Journal.Recover.{if_gen, read_record}

-- Past this number the ring has no record: a batch that a crash has torn is behind it, until the ring
-- has been cleared.
abbrev pub clean_from : Journal → ℕ
clean_from j = if j.scrub then j.head + batch_records else j.head

-- The head is where a replay stops, and past a torn batch there is no record.
pub record IsClean (j : Journal) : Type 0 where
  pub here : read_record j.ring j.head ≡ none
  pub past : (q : ℕ) → clean_from j ≤ q → read_record j.ring q ≡ none

read-update_zero :
    (ring : Ring) (s q : ℕ) → read_record ring q ≡ none → read_record (update ring s none) q ≡ none
unfolding read_record
read-update_zero ring s q h = elim (Bool-cases (s == journal_slot q)) [
  | inl e ↦ rw e refl
  | inr e ↦ rw e h
]

-- The clearing makes no record.
read-zero_slots :
    (n seq q : ℕ) (ring : Ring)
    → read_record ring q ≡ none
    → read_record (zero_slots n seq ring) q ≡ none
unfolding zero_slots
read-zero_slots zero seq q ring h = h
read-zero_slots (suc n) seq q ring h =
    read-update_zero (zero_slots n (seq + 1) ring) (journal_slot seq) q
      (read-zero_slots n (seq + 1) q ring h)

read-zero_here : (ring : Ring) (q : ℕ) → read_record (update ring (journal_slot q) none) q ≡ none
unfolding read_record
read-zero_here ring q = rw ((==_iff (journal_slot q) (journal_slot q)).1 refl) refl

read-zeroed :
    (n seq q : ℕ) (ring : Ring)
    → seq ≤ q
    → q < seq + n
    → read_record (zero_slots n seq ring) q ≡ none
unfolding zero_slots
read-zeroed zero seq q ring lo hi = absurd (omega arith)
read-zeroed (suc n) seq q ring lo hi = elim (Bool-cases (seq == q)) [
  | inl e ↦
      let same : seq ≡ q = (==_iff seq q).0 e in
      ap (λ t. read_record (update (zero_slots n (seq + 1) ring) (journal_slot t) none) q) same
      ∙ read-zero_here (zero_slots n (seq + 1) ring) q
  | inr e ↦
      read-update_zero (zero_slots n (seq + 1) ring) (journal_slot seq) q
        (read-zeroed n (seq + 1) q ring (ground (arith, e)) (omega (arith, hi)))
]

-- A settled journal has no record from the head on, which is where it was.
abbrev IsSettled : Journal → Bool × Journal → Type 0
IsSettled j r =
    r.0 ≡ true → (r.1.head ≡ j.head) × ((q : ℕ) → j.head ≤ q → read_record r.1.ring q ≡ none)

pub settle-IsSettled :
    (m : Members) (j : Journal)
    → IsClean j
    → (settle m j).0 ≡ true
    → ((settle m j).1.head ≡ j.head)
      × ((q : ℕ) → j.head ≤ q → read_record (settle m j).1.ring q ≡ none)
unfolding settle scrub_ring
settle-IsSettled m j clean =
    if_rule (IsSettled j) (not j.scrub)
      (λ old _. (refl, λ q lo. clean.past q (ground (arith, old))))
      (λ new.
        if_rule (IsSettled j) (not (j.head == j.tail) && not m.checkpoints) (λ _ e. absurd (cc e))
          (λ _.
            if_rule (IsSettled j) m.scrubs
              (λ _ _. (refl, λ q lo. zeroed new q lo (Bool-cases (ltb q (j.head + batch_records)))))
              (λ _ e. absurd (cc e))))
  where
    zeroed :
        not j.scrub ≡ false
        → (q : ℕ) → j.head ≤ q
        → (ltb q (j.head + batch_records) ≡ true) ⊎ (ltb q (j.head + batch_records) ≡ false)
        → read_record (zero_slots batch_records j.head j.ring) q ≡ none
    zeroed new q lo (inl e) = read-zeroed batch_records j.head q j.ring lo (ground (arith, e))
    zeroed new q lo (inr e) =
        read-zero_slots batch_records j.head q j.ring (clean.past q (ground (arith, e, new)))

-- Settled or not, nothing can be read at the head, where it was.
abbrev IsStill : Journal → Bool × Journal → Type 0
IsStill j r = (r.1.head ≡ j.head) × (read_record r.1.ring j.head ≡ none)

some_zeroed :
    (reached : ℕ → Bool) (zeroed ring : Ring) (q : ℕ)
    → read_record zeroed q ≡ none
    → read_record ring q ≡ none
    → read_record (λ s. if reached s then zeroed s else ring s) q ≡ none
unfolding read_record
some_zeroed reached zeroed ring q hz h =
    if_rule (λ o. if_gen q o ≡ none) (reached (journal_slot q)) (λ _. hz) (λ _. h)

pub settle-IsStill :
    (m : Members) (j : Journal)
    → read_record j.ring j.head ≡ none
    → ((settle m j).1.head ≡ j.head) × (read_record (settle m j).1.ring j.head ≡ none)
unfolding settle scrub_ring
settle-IsStill m j h =
    let gone = read-zero_slots batch_records j.head j.head j.ring h in
    if_rule (IsStill j) (not j.scrub) (λ _. (refl, h))
      (λ _.
        if_rule (IsStill j) (not (j.head == j.tail) && not m.checkpoints) (λ _. (refl, h))
          (λ _.
            if_rule (IsStill j) m.scrubs (λ _. (refl, gone))
              (λ _. (
                refl,
                some_zeroed m.reached (zero_slots batch_records j.head j.ring) j.ring j.head gone h,
              ))))
