-- ===== src/Snap/Journal/Batch.antt =====
-- `rk_sn_commit_fn`: a batch of operations, from the records to the results. Whether the members took
-- what is written to them is an argument.
use md_kmec.Base.{
  ℕ, zero, suc, ◌+◌, Bool, true, false, not, ◌&&◌, ◌||◌, Option, none, some, List, [], ◌∷◌, ◌++◌,
  length, leb, ◌==◌, if◌then◌else◌, update,
}
use md_kmec.Snap.State.{Sn, Op, redirect, create, destroy, rename}
use md_kmec.Snap.Apply.{apply}
use md_kmec.Snap.Record.{op_size, op_put}
use md_kmec.Snap.Region.{journal_slot}

-- `RK_SN_JMAX`: the bytes of operations that a record holds; `RK_SN_JBUF`.
abbrev pub record_max : ℕ
record_max = 4070

abbrev pub batch_records : ℕ
batch_records = 32

-- The record that is being filled, if there is one, closed.
abbrev pub close : Option (List ℕ) → List (List ℕ)
close none = []
close (some body) = body ∷ []

abbrev pub has_room : Option (List ℕ) → ℕ → Bool
has_room none size = false
has_room (some body) size = leb (length body + size) record_max

abbrev pub extend : Option (List ℕ) → List ℕ → Option (List ℕ)
extend none bytes = some bytes
extend (some body) bytes = some (body ++ bytes)

-- The records of a batch, the operations in them, and those that are left for the next round. `nrec`
-- records are begun, `open_record` is the last.
unfoldable pub pack : List Op → ℕ → Option (List ℕ) → List (List ℕ) × List Op × List Op
unfolding op_size op_put
pack [] nrec open_record = (close open_record, [], [])
pack (op ∷ ops) nrec open_record =
    let here = pack ops nrec (extend open_record (op_put op)) in
    let next = pack ops (nrec + 1) (some (op_put op)) in
    if has_room open_record (op_size op)
    then (here.0, op ∷ here.1, here.2)
    else if nrec == batch_records
    then (close open_record, [], op ∷ ops)
    else (close open_record ++ next.0, op ∷ next.1, next.2)

-- What is pending: an operation, and whether the write of a copy-on-write's data failed.
abbrev pub Pending : Type 0
Pending = Op × Bool

-- A copy-on-write whose data write failed has no record.
unfoldable pub with_record : List Pending → List Op
with_record [] = []
with_record ((op, failed) ∷ r) = let rest = with_record r in if failed then rest else op ∷ rest

-- A redirect's row, and what a create's snapshot holds, must be durable before the record is.
abbrev pub needs_data : Op → Bool
needs_data (redirect row old_phys new_phys) = true
needs_data (create g) = true
needs_data (destroy s) = false
needs_data (rename s text) = false
needs_data (Op.set s text) = false

unfoldable pub any_data : List Op → Bool
any_data [] = false
any_data (op ∷ r) = needs_data op || any_data r

unfoldable pub apply_all : List Op → Sn → Sn
apply_all [] sn = sn
apply_all (op ∷ r) sn = apply_all r (apply sn op)

-- A slot of the ring holds the record of the sequence number that its page says.
abbrev pub Ring : Type 0
Ring = ℕ → Option (ℕ × List ℕ)

-- The state of the journal: the next sequence number, the first that no checkpoint covers, whether a
-- write reached no member, whether the ring past the head has been cleared since the load, and the
-- ring.
pub record Journal : Type 0 where
  pub head : ℕ
  pub tail : ℕ
  pub broken : Bool
  pub scrub : Bool
  pub ring : Ring

-- The operations' result: done; failed, with the new rows of the batch free again; failed, with the
-- rows kept, since a record may be on a member.
pub data Fate : Type 0 where
  committed undone in_doubt : Fate

pub record Commit : Type 0 where
  pub sn : Sn
  pub journal : Journal
  pub fate : Fate

-- What the members do: whether a checkpoint succeeds, the clearing of the ring, the flush of the data
-- and the write of the records; which slots a clearing that fails has made unreadable, and what is in
-- the ring where the write of the records fails.
pub record Members : Type 0 where
  pub checkpoints : Bool
  pub scrubs : Bool
  pub reached : ℕ → Bool
  pub flushes : Bool
  pub takes : Bool
  pub torn : Ring

-- `n` slots from that of the sequence number `seq` on, zeroed.
unfoldable pub zero_slots : ℕ → ℕ → Ring → Ring
unfolding journal_slot
zero_slots zero seq ring = ring
zero_slots (suc n) seq ring = update (zero_slots n (seq + 1) ring) (journal_slot seq) none

-- `rk_sn_scrub_ring`.
unfoldable pub scrub_ring : Members → Journal → Bool × Journal
unfolding zero_slots
scrub_ring m j =
    let zeroed = zero_slots batch_records j.head j.ring in
    if m.scrubs
    then (true, record j { scrub = false; ring = zeroed })
    else (false, record j { ring = λ s. if m.reached s then zeroed s else j.ring s })

-- `rk_sn_settle`: before the first record after a load. A checkpoint moves the tail to the head.
unfoldable pub settle : Members → Journal → Bool × Journal
unfolding scrub_ring
settle m j =
    if not j.scrub
    then (true, j)
    else if not (j.head == j.tail) && not m.checkpoints
    then (false, j)
    else scrub_ring m (record j { tail = j.head })

-- `rk_sn_put_records`: the records from the sequence number `seq` on.
unfoldable pub put_records : List (List ℕ) → ℕ → Ring → Ring
unfolding journal_slot
put_records [] seq ring = ring
put_records (body ∷ r) seq ring =
    put_records r (seq + 1) (update ring (journal_slot seq) (some (seq, body)))

-- The write of the records of a batch, once the journal is settled, and its operations.
unfoldable pub write_batch : Members → Sn → List (List ℕ) → List Op → Bool × Journal → Commit
unfolding any_data put_records apply_all
write_batch m sn bodies ops (settled, j) =
    if not settled || (any_data ops && not m.flushes)
    then record { sn = sn; journal = record j { broken = true }; fate = undone }
    else if not m.takes
    then record { sn = sn; journal = record j { broken = true; ring = m.torn }; fate = in_doubt }
    else record {
      sn = apply_all ops sn;
      journal = record j { head = j.head + length bodies; ring = put_records bodies j.head j.ring };
      fate = committed;
    }

-- A broken journal is not settled any more, and takes no record.
unfoldable pub commit : Members → Sn → Journal → List (List ℕ) → List Op → Commit
unfolding settle write_batch apply_all
commit m sn j [] ops = record { sn = apply_all ops sn; journal = j; fate = committed }
commit m sn j (body ∷ r) ops =
    if j.broken
    then record { sn = sn; journal = j; fate = undone }
    else write_batch m sn (body ∷ r) ops (settle m j)

-- One round of `rk_sn_commit_fn`, and the operations that are left for the next one.
unfoldable pub commit_round : Members → Sn → Journal → List Pending → Commit × List Op
unfolding commit pack with_record
commit_round m sn j pending =
    let (bodies, fit, left) = pack (with_record pending) 0 none in (commit m sn j bodies fit, left)
