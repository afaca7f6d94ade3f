-- ===== src/Reshape/Journal/Newest.antt =====
-- The newest record wins, and a write of the next one leaves it or that one.
use md_kmec.Base.{
  ℕ, ◌%◌, ◌<◌, ◌≡◌, ◌≢◌, ◌⊎◌, inl, inr, refl, sym, ap, ◌∙◌, subst, [], ◌∷◌, true, false, ◌&&◌,
  Option, none, some, leb, if◌then◌else◌, if_rule, arith, ℕ_discrete,
}
use md_kmec.Reshape.Journal.{
  Journal, Disk, Disks, ScratchIo, is_valid, newer, taken, read_slot, read_disks, jread,
}

-- What a slot may hold beside the newest record `r`: an older one, or `r` itself.
abbrev pub AtMost : Journal → Journal → Type 0
AtMost r rj = (rj.seq < r.seq) ⊎ (rj ≡ r)

-- A member that is not failed has the record in the slot.
pub data HasAt (r : Journal) (slot : ℕ) : Disks → Type 0 where
  here :
      {d : Disk} {disks : Disks}
      → d.faulty ≡ false
      → d.slots slot ≡ r
      → HasAt r slot (some d ∷ disks)
  there : {d : Option Disk} {disks : Disks} → HasAt r slot disks → HasAt r slot (d ∷ disks)

-- Such a member whose slot can also be read.
pub data HasRead (io : ScratchIo) (r : Journal) (slot : ℕ) : Disks → Type 0 where
  seen :
      {d : Disk} {disks : Disks}
      → d.faulty ≡ false
      → d.slots slot ≡ r
      → io.read d slot ≢ none
      → HasRead io r slot (some d ∷ disks)
  later :
      {d : Option Disk} {disks : Disks} → HasRead io r slot disks → HasRead io r slot (d ∷ disks)

-- If members have the record in its slot, the read of one of them succeeds; the others' may fail.
abbrev pub IsRead : ScratchIo → Journal → Disks → Type 0
IsRead io r disks = HasAt r (r.seq % 2) disks → HasRead io r (r.seq % 2) disks

-- A write that succeeds stores the record, and one that fails leaves the slot as it was, or with the
-- record, or not valid; the other slot and the flags stay. A read fails, or gives what is stored.
pub record IsScratchIo (crc32c : Journal → ℕ) (io : ScratchIo) : Type 0 where
  pub stored :
      (d : Disk) (slot : ℕ) (rj : Journal)
      → (io.write d slot rj).0 ≡ true
      → (io.write d slot rj).1.slots slot ≡ rj
  pub torn :
      (d : Disk) (slot : ℕ) (rj : Journal)
      → ((io.write d slot rj).1.slots slot ≡ d.slots slot)
        ⊎ (((io.write d slot rj).1.slots slot ≡ rj)
            ⊎ (is_valid crc32c ((io.write d slot rj).1.slots slot) ≡ false))
  pub others :
      (d : Disk) (slot other : ℕ) (rj : Journal)
      → slot ≢ other
      → (io.write d slot rj).1.slots other ≡ d.slots other
  pub flags : (d : Disk) (slot : ℕ) (rj : Journal) → (io.write d slot rj).1.faulty ≡ d.faulty
  pub sync_flag : (d : Disk) (slot : ℕ) (rj : Journal) → (io.write d slot rj).1.in_sync ≡ d.in_sync
  pub reads :
      (d : Disk) (slot : ℕ) → (io.read d slot ≡ none) ⊎ (io.read d slot ≡ some (d.slots slot))

module _ (crc32c : Journal → ℕ) where
  -- A slot of a member holds an older record than `r`, or `r`, or none.
  abbrev pub SlotLow : Journal → Disk → ℕ → Type 0
  SlotLow r d slot = (is_valid crc32c (d.slots slot) ≡ false) ⊎ AtMost r (d.slots slot)

  pub record DiskLow (r : Journal) (d : Disk) : Type 0 where
    pub low : d.faulty ≡ false → SlotLow r d 0 × SlotLow r d 1

  pub data AllLow (r : Journal) : Disks → Type 0 where
    nil : AllLow r []
    gap : {disks : Disks} → AllLow r disks → AllLow r (none ∷ disks)
    one : {d : Disk} {disks : Disks} → DiskLow r d → AllLow r disks → AllLow r (some d ∷ disks)

  -- `r` is the newest record of the members: it is valid and stands in the slot of its number.
  pub record IsNewest (disks : Disks) (r : Journal) : Type 0 where
    pub valid : is_valid crc32c r ≡ true
    pub all_low : AllLow r disks
    pub held : HasAt r (r.seq % 2) disks

  module _ (r : Journal) (v : is_valid crc32c r ≡ true) where
    abbrev Low : Option Journal → Type 0
    Low none = Unit {0}
    Low (some b) = AtMost r b

    newer-top :
        (rj : Journal)
        → (is_valid crc32c rj ≡ false) ⊎ AtMost r rj
        → newer crc32c (some r) rj ≡ some r
    unfolding newer
    newer-top rj (inl bad) = ground arith
    newer-top rj (inr (inl old)) = ground arith
    newer-top rj (inr (inr same)) =
        if_rule (λ x. x ≡ some r) (is_valid crc32c rj && leb r.seq rj.seq) (λ _. ap some same)
          (λ _. refl)

    newer-hit : (best : Option Journal) → Low best → newer crc32c best r ≡ some r
    unfolding newer
    newer-hit none low = ground arith
    newer-hit (some b) (inl old) = ground arith
    newer-hit (some b) (inr same) =
        if_rule (λ x. x ≡ some r) (is_valid crc32c r && leb b.seq r.seq) (λ _. refl)
          (λ _. ap some same)

    newer-Low :
        (best : Option Journal) (rj : Journal)
        → Low best
        → (is_valid crc32c rj ≡ false) ⊎ AtMost r rj
        → Low (newer crc32c best rj)
    unfolding newer
    newer-Low none rj low h = if_rule Low (is_valid crc32c rj) (λ e. at_most h e) (λ _. tt)
      where
        at_most :
            (is_valid crc32c rj ≡ false) ⊎ AtMost r rj → is_valid crc32c rj ≡ true → AtMost r rj
        at_most (inl bad) e = absurd (cc)
        at_most (inr ok) e = ok
    newer-Low (some b) rj low h =
        if_rule Low (is_valid crc32c rj && leb b.seq rj.seq) (λ e. at_most h (ground arith))
          (λ _. low)
      where
        at_most :
            (is_valid crc32c rj ≡ false) ⊎ AtMost r rj → is_valid crc32c rj ≡ true → AtMost r rj
        at_most (inl bad) e = absurd (cc)
        at_most (inr ok) e = ok

    module _ {io : ScratchIo} (ok : IsScratchIo crc32c io) where
      read_slot-top :
          (d : Disk) (slot : ℕ)
          → (is_valid crc32c (d.slots slot) ≡ false) ⊎ AtMost r (d.slots slot)
          → read_slot crc32c io d slot (some r) ≡ some r
      unfolding read_slot taken
      read_slot-top d slot low = elim (ok.reads d slot) [
        | inl e ↦ ap (taken crc32c (some r)) e
        | inr e ↦ ap (taken crc32c (some r)) e ∙ newer-top (d.slots slot) low
      ]

      read_slot-Low :
          (d : Disk) (slot : ℕ) (best : Option Journal)
          → (is_valid crc32c (d.slots slot) ≡ false) ⊎ AtMost r (d.slots slot)
          → Low best
          → Low (read_slot crc32c io d slot best)
      unfolding read_slot taken
      read_slot-Low d slot best low h = elim (ok.reads d slot) [
        | inl e ↦ subst Low (sym (ap (taken crc32c best) e)) h
        | inr e ↦ subst Low (sym (ap (taken crc32c best) e)) (newer-Low best (d.slots slot) h low)
      ]

      read_slot-hit :
          (d : Disk) (slot : ℕ) (best : Option Journal)
          → Low best
          → d.slots slot ≡ r
          → io.read d slot ≢ none
          → read_slot crc32c io d slot best ≡ some r
      unfolding read_slot taken
      read_slot-hit d slot best h is reads = elim (ok.reads d slot) [
        | inl e ↦ absurd (reads e)
        | inr e ↦ ap (taken crc32c best) (e ∙ ap some is) ∙ newer-hit best h
      ]

      -- Once it is found, the newest record stays.
      read_disks-top :
          {disks : Disks} → AllLow r disks → read_disks crc32c io disks (some r) ≡ some r
      unfolding read_disks
      read_disks-top nil = refl
      read_disks-top (gap low) = read_disks-top low
      read_disks-top (one {d} {disks} low rest) =
          let stays : (if d.faulty
                then some r
                else read_slot crc32c io d 1 (read_slot crc32c io d 0 (some r)))
              ≡ some r =
            if_rule (λ x. x ≡ some r) d.faulty (λ _. refl)
              (λ up.
                let (low0, low1) = low.low up in
                ap (read_slot crc32c io d 1) (read_slot-top d 0 low0) ∙ read_slot-top d 1 low1) in
          ap (read_disks crc32c io disks) stays ∙ read_disks-top rest

      read_disks-newest :
          {slot : ℕ} {disks : Disks} (best : Option Journal)
          → slot < 2
          → Low best
          → AllLow r disks
          → HasRead io r slot disks
          → read_disks crc32c io disks best ≡ some r
      unfolding read_disks
      read_disks-newest best small low nil has = elim has [ ]
      read_disks-newest best small low (gap rest) (later has) =
          read_disks-newest best small low rest has
      read_disks-newest best small low (one {d} {disks} l rest) (later has) =
          read_disks-newest
            (if d.faulty then best else read_slot crc32c io d 1 (read_slot crc32c io d 0 best))
            small
            (if_rule Low d.faulty (λ _. low)
              (λ up.
                let (low0, low1) = l.low up in
                read_slot-Low d 1 _ low1 (read_slot-Low d 0 best low0 low)))
            rest has
      read_disks-newest {slot} best small low (one {d} {disks} l rest) (seen up is reads) =
          let (low0, low1) = l.low up in
          let found : read_slot crc32c io d 1 (read_slot crc32c io d 0 best) ≡ some r =
            elim (ℕ_discrete slot 0) [
              | yes e ↦
                  let at0 =
                    read_slot-hit d 0 best low (ap d.slots (sym e) ∙ is)
                      (λ q. reads (ap (io.read d) e ∙ q)) in
                  ap (read_slot crc32c io d 1) at0 ∙ read_slot-top d 1 low1
              | no ne ↦
                  let e : slot ≡ 1 = omega arith in
                  read_slot-hit d 1 _ (read_slot-Low d 0 best low0 low) (ap d.slots (sym e) ∙ is)
                    (λ q. reads (ap (io.read d) e ∙ q))
            ] in
          let picks : (if d.faulty
                then best
                else read_slot crc32c io d 1 (read_slot crc32c io d 0 best))
              ≡ some r =
            if_rule (λ x. x ≡ some r) d.faulty (λ bad. absurd (cc)) (λ _. found) in
          ap (read_disks crc32c io disks) picks ∙ read_disks-top rest

  pub jread-newest :
      {io : ScratchIo} {disks : Disks} {r : Journal}
      → IsScratchIo crc32c io
      → IsNewest disks r
      → IsRead io r disks
      → jread crc32c io disks ≡ some r
  unfolding jread
  jread-newest {r = r} ok n reads =
      read_disks-newest r n.valid ok none (omega arith) tt n.all_low (reads n.held)
