-- ===== src/Snap/Journal/Replay.antt =====
-- What replay makes of the records that a commit packs: `rk_sn_commit_fn` against `rk_sn_replay` in
-- km/raid_km-snapmeta.c.
use md_kmec.Base.{
  ℕ, zero, suc, ◌+◌, ◌≤◌, ◌≡◌, refl, subst, sym, ap, ◌∙◌, true, false, Option, none, some, List, [],
  ◌∷◌, ◌++◌, length, ltb, ◌==◌, arith, Bool-cases, Option-cases, inl, inr, length-append,
}
use mathlib.Core.List.{append_assoc, append-nil}
use md_kmec.Snap.State.{Sn, Op, redirect, create, destroy, rename}
use md_kmec.Snap.Apply.{apply}
use md_kmec.Snap.Record.{op_size, op_put, op_get}
use md_kmec.Snap.Record.RoundTrip.{IsRecordable, op_get-op_put}
use md_kmec.Snap.Journal.Batch.{record_max, batch_records, close, has_room, extend, pack, apply_all}
use md_kmec.Snap.Journal.Recover.{op_valid, step_with, replay_ops, replay_record}

-- Each operation fits a record and applies to the state that those before it leave.
abbrev pub AllReplayable : List Op → Sn → Type 0
AllReplayable [] sn = Unit
AllReplayable (op ∷ r) sn =
    IsRecordable op × (op_valid sn op ≡ true) × AllReplayable r (apply sn op)

unfoldable pub put_all : List Op → List ℕ
put_all [] = []
put_all (op ∷ r) = op_put op ++ put_all r

op_put-cons : (op : Op) → (b : ℕ) × (t : List ℕ) × (op_put op ≡ b ∷ t)
unfolding op_put
op_put-cons (redirect row old_phys new_phys) = (_, _, refl)
op_put-cons (create g) = (_, _, refl)
op_put-cons (destroy s) = (_, _, refl)
op_put-cons (rename s text) = (_, _, refl)
op_put-cons (Op.set s text) = (_, _, refl)

replay_step :
    (fuel : ℕ) (l : List ℕ) (sn : Sn) (b : ℕ) (t : List ℕ)
    → l ≡ b ∷ t
    → replay_ops (suc fuel) true l sn ≡ step_with (replay_ops fuel true) sn (op_get true l)
unfolding replay_ops
replay_step fuel l sn b t e = rw e refl

taken :
    (fuel : ℕ) (rest : List ℕ) (sn : Sn) (op : Op)
    → op_valid sn op ≡ true
    → step_with (replay_ops fuel true) sn (some (op, rest))
      ≡ replay_ops fuel true rest (apply sn op)
taken fuel rest sn op valid = rw valid refl

replay_ops-put_all :
    (fuel : ℕ) (ops : List Op) (sn : Sn)
    → length (put_all ops) ≤ fuel
    → AllReplayable ops sn
    → replay_ops fuel true (put_all ops) sn ≡ some (apply_all ops sn)
unfolding replay_ops apply_all put_all
replay_ops-put_all fuel [] sn h ok = refl
replay_ops-put_all zero (op ∷ r) sn h (small, valid, ok) =
    let (b, t, e) = op_put-cons op in
    absurd (omega (arith, h, length-append (op_put op) (put_all r), ap length e))
replay_ops-put_all (suc fuel) (op ∷ r) sn h (small, valid, ok) =
    let (b, t, e) = op_put-cons op in
    let size = length-append (op_put op) (put_all r) in
    replay_step fuel (op_put op ++ put_all r) sn b (t ++ put_all r) (ap (λ l. l ++ put_all r) e)
    ∙ ap (step_with (replay_ops fuel true) sn) (op_get-op_put op (put_all r) small).0
    ∙ taken fuel (put_all r) sn op valid
    ∙ replay_ops-put_all fuel r (apply sn op) (omega (arith, h, size, ap length e)) ok

-- A record that is not too long replays to its operations.
replay_record-put_all :
    (ops : List Op) (sn : Sn)
    → length (put_all ops) ≤ record_max
    → AllReplayable ops sn
    → replay_record true (put_all ops) sn ≡ some (apply_all ops sn)
unfolding replay_record
replay_record-put_all ops sn h ok =
    let f : ltb record_max (length (put_all ops)) ≡ false = ground arith in
    rw f (replay_ops-put_all (length (put_all ops)) ops sn (omega arith) ok)

-- Records one after the other.
abbrev pub and_replay : (Sn → Option Sn) → Option Sn → Option Sn
and_replay k none = none
and_replay k (some sn) = k sn

unfoldable pub replay_all : List (List ℕ) → Sn → Option Sn
replay_all [] sn = some sn
replay_all (body ∷ r) sn = and_replay (replay_all r) (replay_record true body sn)

replay_all-append :
    (a b : List (List ℕ)) (sn later : Sn)
    → replay_all a sn ≡ some later
    → replay_all (a ++ b) sn ≡ replay_all b later
unfolding replay_all
replay_all-append [] b sn later e = let q : sn ≡ later = cc e in ap (replay_all b) q
replay_all-append (body ∷ r) b sn later e = elim (Option-cases (replay_record true body sn)) [
  | inl n ↦ let f = rw n at e in absurd (cc f)
  | inr (d, n) ↦ let f = rw n at e in rw n (replay_all-append r b d later f)
]

apply_all-append : (a b : List Op) (sn : Sn) → apply_all (a ++ b) sn ≡ apply_all b (apply_all a sn)
unfolding apply_all
apply_all-append [] b sn = refl
apply_all-append (op ∷ r) b sn = apply_all-append r b (apply sn op)

put_all-append : (a b : List Op) → put_all (a ++ b) ≡ put_all a ++ put_all b
unfolding put_all
put_all-append [] b = refl
put_all-append (op ∷ r) b =
    ap (λ l. op_put op ++ l) (put_all-append r b)
    ∙ sym (append_assoc (op_put op) (put_all r) (put_all b))

AllReplayable-parts :
    (a b : List Op) (sn : Sn)
    → AllReplayable (a ++ b) sn
    → AllReplayable a sn × AllReplayable b (apply_all a sn)
unfolding apply_all
AllReplayable-parts [] b sn h = (tt, h)
AllReplayable-parts (op ∷ r) b sn (small, valid, h) =
    let (x, y) = AllReplayable-parts r b (apply sn op) h in ((small, valid, x), y)

-- The record that holds the operations `done`.
abbrev opened : List Op → Option (List ℕ)
opened [] = none
opened (op ∷ r) = some (put_all (op ∷ r))

op_size-le : (op : Op) → IsRecordable op → op_size op ≤ record_max
unfolding op_size
op_size-le (redirect row old_phys new_phys) h = omega arith
op_size-le (create g) h = omega (arith, h.4.short)
op_size-le (destroy s) h = omega arith
op_size-le (rename s text) h = omega arith
op_size-le (Op.set s text) h = omega (arith, h.1.short)

close-replays :
    (done : List Op) (sn : Sn)
    → length (put_all done) ≤ record_max
    → AllReplayable done sn
    → replay_all (close (opened done)) sn ≡ some (apply_all done sn)
unfolding replay_all apply_all
close-replays [] sn h ok = refl
close-replays (op ∷ r) sn h ok =
    ap (and_replay (λ t. some t)) (replay_record-put_all (op ∷ r) sn h ok)

extend-opened :
    (done : List Op) (op : Op) → extend (opened done) (op_put op) ≡ opened (done ++ (op ∷ []))
unfolding put_all
extend-opened [] op = ap some (sym (append-nil (op_put op)))
extend-opened (o ∷ r) op = ap some (
    ap (λ l. (op_put o ++ put_all r) ++ l) (sym (append-nil (op_put op)))
    ∙ append_assoc (op_put o) (put_all r) (op_put op ++ [])
    ∙ ap (λ l. op_put o ++ l) (sym (put_all-append r (op ∷ []))))

room_lem :
    (done : List Op) (op : Op)
    → IsRecordable op
    → has_room (opened done) (op_size op) ≡ true
    → length (put_all (done ++ (op ∷ []))) ≤ record_max
unfolding put_all
room_lem [] op small h = absurd (cc h)
room_lem (o ∷ r) op small h = ground (
  arith,
  h,
  ap length (put_all-append (o ∷ r) (op ∷ [])),
  length-append (put_all (o ∷ r)) (op_put op ++ []),
  length-append (op_put op) [],
  (op_get-op_put op [] small).1,
)

one_fits : (op : Op) → IsRecordable op → length (put_all (op ∷ [])) ≤ record_max
unfolding put_all
one_fits op small =
    omega (arith, length-append (op_put op) [], (op_get-op_put op [] small).1, op_size-le op small)

one_open : (op : Op) → opened (op ∷ []) ≡ some (op_put op)
unfolding put_all
one_open op = ap some (append-nil (op_put op))

-- The records of a batch replay to the operations in them, in their order.
pub pack_replays :
    (ops done : List Op) (nrec : ℕ) (sn : Sn)
    → length (put_all done) ≤ record_max
    → AllReplayable (done ++ ops) sn
    → (replay_all (pack ops nrec (opened done)).0 sn
        ≡ some (apply_all (done ++ (pack ops nrec (opened done)).1) sn))
      × ((pack ops nrec (opened done)).1 ++ (pack ops nrec (opened done)).2 ≡ ops)
unfolding pack
pack_replays [] done nrec sn h ok =
    let all = subst (λ l. AllReplayable l sn) (append-nil done) ok in
    (close-replays done sn h all ∙ ap (λ l. some (apply_all l sn)) (sym (append-nil done)), refl)
pack_replays (op ∷ ops) done nrec sn h ok =
    let parts = AllReplayable-parts done (op ∷ ops) sn ok in
    let small = parts.1.0 in
    let closed = close-replays done sn h parts.0 in
    elim (Bool-cases (has_room (opened done) (op_size op))) [
      | inl t ↦
          let again = subst (λ l. AllReplayable l sn) (sym (append_assoc done (op ∷ []) ops)) ok in
          let ih = pack_replays ops (done ++ (op ∷ [])) nrec sn (room_lem done op small t) again in
          let fit = (pack ops nrec (opened (done ++ (op ∷ [])))).1 in
          rw t (
            subst
              (λ o.
                (replay_all (pack ops nrec o).0 sn
                  ≡ some (apply_all (done ++ op ∷ (pack ops nrec o).1) sn))
                × (op ∷ (pack ops nrec o).1 ++ (pack ops nrec o).2 ≡ op ∷ ops))
              (sym (extend-opened done op))
              (
                ih.0 ∙ ap (λ l. some (apply_all l sn)) (append_assoc done (op ∷ []) fit),
                ap (λ l. op ∷ l) ih.1,
              ))
      | inr t ↦ rw t (elim (Bool-cases (nrec == batch_records)) [
        | inl u ↦ rw u (closed ∙ ap (λ l. some (apply_all l sn)) (sym (append-nil done)), refl)
        | inr u ↦
            let later = apply_all done sn in
            let ih = pack_replays ops (op ∷ []) (nrec + 1) later (one_fits op small) parts.1 in
            let fit = (pack ops (nrec + 1) (opened (op ∷ []))).1 in
            rw u (
              subst
                (λ o.
                  (replay_all (close (opened done) ++ (pack ops (nrec + 1) o).0) sn
                    ≡ some (apply_all (done ++ op ∷ (pack ops (nrec + 1) o).1) sn))
                  × (op ∷ (pack ops (nrec + 1) o).1 ++ (pack ops (nrec + 1) o).2 ≡ op ∷ ops))
                (one_open op)
                (
                  replay_all-append (close (opened done)) (pack ops (nrec + 1) (opened (op ∷ []))).0
                        sn later closed
                      ∙ ih.0
                      ∙ ap some (sym (apply_all-append done (op ∷ fit) sn)),
                  ap (λ l. op ∷ l) ih.1,
                ))
      ])
    ]
