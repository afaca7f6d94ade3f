-- ===== src/Snap/Journal/Recover.antt =====
-- `rk_sn_op_valid` and `rk_sn_replay` of km/raid_km-snapmeta.c.
use md_kmec.Base.{
  ℕ, zero, suc, ◌+◌, Bool, true, false, not, ◌&&◌, Option, none, some, List, [], ◌∷◌, length, ltb,
  ◌==◌, if◌then◌else◌,
}
use md_kmec.Snap.Origin.{origin}
use md_kmec.Snap.State.{Sn, Op, redirect, create, destroy, rename, snap_slot, snap_slots}
use md_kmec.Snap.Apply.{apply}
use md_kmec.Snap.Record.{op_get}
use md_kmec.Snap.Region.{journal_slot}
use md_kmec.Snap.Journal.Batch.{Ring, record_max}

abbrev pub is_slot : Sn → ℕ → Bool
is_slot sn s = ltb s snap_slots && (elim (snap_slot sn.snaps s) [ none ↦ false | some _ ↦ true ])

-- `rk_sn_op_valid`.
unfoldable pub op_valid : Sn → Op → Bool
unfolding snap_slot
op_valid sn (redirect row old_phys new_phys) =
    not (sn.nsnaps == 0)
    && ltb row sn.origin_rows
    && ltb new_phys sn.phys_rows
    && ltb old_phys sn.phys_rows
    && (origin sn.odir row == old_phys)
    && not (sn.used new_phys)
op_valid sn (create g) = ltb g.slot snap_slots && not (sn.slots g.slot)
op_valid sn (destroy s) = is_slot sn s
op_valid sn (rename s text) = is_slot sn s
op_valid sn (Op.set s text) = is_slot sn s

-- The operations of one record. `none` is -EUCLEAN. An operation takes a byte at least, so as many
-- rounds as there are bytes are enough.
abbrev pub step_with : (List ℕ → Sn → Option Sn) → Sn → Option (Op × List ℕ) → Option Sn
step_with k sn none = none
step_with k sn (some (op, rest)) = if op_valid sn op then k rest (apply sn op) else none

unfoldable pub replay_ops : ℕ → Bool → List ℕ → Sn → Option Sn
unfolding op_valid op_get
replay_ops fuel mem [] sn = some sn
replay_ops zero mem (b ∷ r) sn = none
replay_ops (suc fuel) mem (b ∷ r) sn = step_with (replay_ops fuel mem) sn (op_get mem (b ∷ r))

unfoldable pub replay_record : Bool → List ℕ → Sn → Option Sn
unfolding replay_ops
replay_record mem body sn =
    if ltb record_max (length body) then none else replay_ops (length body) mem body sn

abbrev pub if_gen : ℕ → Option (ℕ × List ℕ) → Option (List ℕ)
if_gen seq none = none
if_gen seq (some (gen, body)) = if gen == seq then some body else none

-- The record of a sequence number: a page of an older lap of the ring is not taken.
unfoldable pub read_record : Ring → ℕ → Option (List ℕ)
unfolding journal_slot
read_record ring seq = if_gen seq (ring (journal_slot seq))

-- What replay leaves: the state and the next sequence number.
abbrev pub after_record :
    (ℕ → Sn → Option (Sn × ℕ)) → Bool → ℕ → Sn → Option (List ℕ) → Option (Sn × ℕ)
after_record k mem seq sn none = some (sn, seq)
after_record k mem seq sn (some body) = elim (replay_record mem body sn) [
  | none ↦ none
  | some later ↦ k (seq + 1) later
]

-- `rk_sn_replay` from a sequence number on. The ring has `journal_pages` slots, so one round more
-- finds no record.
unfoldable pub replay : ℕ → Bool → Ring → ℕ → Sn → Option (Sn × ℕ)
unfolding read_record replay_record
replay zero mem ring seq sn = none
replay (suc fuel) mem ring seq sn =
    after_record (replay fuel mem ring) mem seq sn (read_record ring seq)
