-- ===== src/Snap/Journal/Ring.antt =====
-- The ring of the journal of km/raid_km-snapmeta.c: what replay finds of the records that were put in it.
use md_kmec.Base.{
  ℕ, zero, suc, ◌+◌, ◌≤◌, ◌<◌, ◌≡◌, ◌≢◌, refl, ap, ◌∙◌, true, false, Option, none, some, List, [],
  ◌∷◌, length, ◌==◌, arith, Bool-cases, Option-cases, inl, inr, length-append, update, ==_iff,
}
use md_kmec.Snap.State.{Sn, Op}
use md_kmec.Snap.Record.{op_size, op_put}
use md_kmec.Snap.Region.{journal_slot}
use md_kmec.Snap.Journal.Batch.{Ring, batch_records, close, has_room, extend, pack, put_records}
use md_kmec.Snap.Journal.Recover.{read_record, replay_record, after_record, replay}
use md_kmec.Snap.Journal.Replay.{replay_all}

-- A batch fills few of the ring's slots.
close-length : (o : Option (List ℕ)) → length (close o) ≤ 1
close-length none = omega arith
close-length (some body) = omega arith

pub pack-length :
    (ops : List Op) (nrec : ℕ) (o : Option (List ℕ))
    → nrec ≤ batch_records
    → length (pack ops nrec o).0 + nrec ≤ batch_records + 1
unfolding pack
pack-length [] nrec o h = omega (arith, close-length o)
pack-length (op ∷ ops) nrec o h = elim (Bool-cases (has_room o (op_size op))) [
  | inl t ↦ rw t (pack-length ops nrec (extend o (op_put op)) h)
  | inr t ↦ rw t (elim (Bool-cases (nrec == batch_records)) [
    | inl u ↦ rw u (omega (arith, close-length o, h))
    | inr u ↦
        let ne : nrec + 1 ≤ batch_records = ground (arith, u) in
        let ih = pack-length ops (nrec + 1) (some (op_put op)) ne in
        rw u (
          omega (
            arith,
            ih,
            close-length o,
            length-append (close o) (pack ops (nrec + 1) (some (op_put op))).0,
          ))
  ])
]

-- A record of another sequence number stays what it was, or is gone.
read-update_other :
    (ring : Ring) (seq q : ℕ) (body : List ℕ)
    → journal_slot seq ≢ journal_slot q
    → read_record (update ring (journal_slot seq) (some (seq, body))) q ≡ read_record ring q
unfolding read_record
read-update_other ring seq q body h =
    let f : (journal_slot seq == journal_slot q) ≡ false = ground arith in rw f refl

read-put_records_before :
    (bodies : List (List ℕ)) (seq q : ℕ) (ring : Ring)
    → q < seq
    → seq + length bodies ≤ q + 1024
    → read_record (put_records bodies seq ring) q ≡ read_record ring q
unfolding put_records
read-put_records_before [] seq q ring lo hi = refl
read-put_records_before (body ∷ r) seq q ring lo hi =
    read-put_records_before r (seq + 1) q (update ring (journal_slot seq) (some (seq, body)))
      (omega arith) (omega (arith, hi))
    ∙ read-update_other ring seq q body (unfold journal_slot in omega (arith, lo, hi))

pub read-update-none :
    (ring : Ring) (seq q : ℕ) (body : List ℕ)
    → seq ≢ q
    → read_record ring q ≡ none
    → read_record (update ring (journal_slot seq) (some (seq, body))) q ≡ none
unfolding read_record
read-update-none ring seq q body ne h = elim (Bool-cases (journal_slot seq == journal_slot q)) [
  | inl e ↦ let f : (seq == q) ≡ false = ground (arith, ne) in rw (e, f) refl
  | inr e ↦ rw e h
]

read-update_here :
    (ring : Ring) (seq : ℕ) (body : List ℕ)
    → read_record (update ring (journal_slot seq) (some (seq, body))) seq ≡ some body
unfolding read_record
read-update_here ring seq body =
    rw ((==_iff (journal_slot seq) (journal_slot seq)).1 refl, (==_iff seq seq).1 refl) refl

after_some :
    (k : ℕ → Sn → Option (Sn × ℕ)) (seq : ℕ) (sn d : Sn) (body : List ℕ)
    → replay_record true body sn ≡ some d
    → after_record k true seq sn (some body) ≡ k (seq + 1) d
after_some k seq sn d body n = rw (n, after_record) refl

sum_zero : (a : ℕ) → a ≡ a + 0
sum_zero a = omega arith

-- Replay from the first of the records reads them all, and stops where the next one is not there.
pub replay-put_records :
    (fuel : ℕ) (bodies : List (List ℕ)) (seq : ℕ) (ring : Ring) (sn later : Sn)
    → length bodies < fuel
    → length bodies ≤ 1024
    → read_record ring (seq + length bodies) ≡ none
    → replay_all bodies sn ≡ some later
    → replay fuel true (put_records bodies seq ring) seq sn ≡ some (later, seq + length bodies)
unfolding replay replay_all put_records
replay-put_records zero bodies seq ring sn later f small clean e = absurd (omega arith)
replay-put_records (suc fuel) [] seq ring sn later f small clean e =
    let same : sn ≡ later = cc e in
    ap (after_record (replay fuel true ring) true seq sn)
      (ap (read_record ring) (sum_zero seq) ∙ clean)
    ∙ (λ i. some (same i, sum_zero seq i))
replay-put_records (suc fuel) (body ∷ r) seq ring sn later f small clean e =
    let next = update ring (journal_slot seq) (some (seq, body)) in
    let here : read_record (put_records r (seq + 1) next) seq ≡ some body =
      read-put_records_before r (seq + 1) seq next (omega arith) (omega (arith, small))
      ∙ read-update_here ring seq body in
    elim (Option-cases (replay_record true body sn)) [
      | inl n ↦ let g = rw n at e in absurd (cc g)
      | inr (d, n) ↦
          let g = rw n at e in
          let clean_next = ap (read_record ring) (sum_suc seq (length r)) ∙ clean in
          let ih =
            replay-put_records fuel r (seq + 1) next d later (omega (arith, f))
              (omega (arith, small))
              (read-update-none ring seq (seq + 1 + length r) body (λ s. absurd (omega (arith, s)))
                clean_next)
              g in
          ap (after_record (replay fuel true (put_records r (seq + 1) next)) true seq sn) here
          ∙ after_some (replay fuel true (put_records r (seq + 1) next)) seq sn d body n
          ∙ ih
          ∙ ap (λ k. some (later, k)) (sum_suc seq (length r))
    ]
  where
    sum_suc : (a b : ℕ) → a + 1 + b ≡ a + suc b
    sum_suc a b = omega arith
