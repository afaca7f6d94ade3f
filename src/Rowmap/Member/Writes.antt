-- ===== src/Rowmap/Member/Writes.antt =====
-- After a page has gone to the members, each has it or has failed.
use md_kmec.Base.{
  ℕ, zero, suc, ◌+◌, [], ◌∷◌, Bool, true, false, ◌&&◌, none, some, ◌≡◌, ◌≢◌, refl, arith, get_elem?,
  Bool-cases, inl, inr, subst,
}
use md_kmec.Rowmap.Page.{Page}
use md_kmec.Rowmap.Member.{Member, Slots, usable, Io, IsIo, write_member, write_slots}

-- A member that counts for what is on disk: it is attached and in sync, and it has not failed.
abbrev pub live : Member → Bool
live m = usable m && m.in_sync

-- The slots keep their places; what a member holds of the pages that are not written stays, and a
-- member that is live after a write of a page was live before it.
pub data Changed (P : Member → Member → Type 0) : Slots → Slots → Type 0 where
  nil : Changed P [] []
  gap : {s t : Slots} → Changed P s t → Changed P (none ∷ s) (none ∷ t)
  one : {m n : Member} {s t : Slots} → P m n → Changed P s t → Changed P (some m ∷ s) (some n ∷ t)

-- The page is stored on the member, unless it is not live any more.
pub record Took (p : ℕ) (pg : Page) (m n : Member) : Type 0 where
  pub was_live : live n ≡ true → live m ≡ true
  pub has : live n ≡ true → n.pages p ≡ pg
  pub keeps : (q : ℕ) → p ≢ q → n.pages q ≡ m.pages q

pub Changed-get :
    {P : Member → Member → Type 0} {s t : Slots} (i : ℕ) (k : Member)
    → Changed P s t
    → get_elem? t i ≡ some (some k)
    → (m : Member) × (get_elem? s i ≡ some (some m)) × P m k
Changed-get i k nil h = absurd (cc)
Changed-get zero k (gap c) h = absurd (cc)
Changed-get (suc i) k (gap c) h = Changed-get i k c h
Changed-get {P} zero k (one {m} {n} p c) h = let same : n ≡ k = cc in (m, refl, subst (P m) same p)
Changed-get (suc i) k (one p c) h = Changed-get i k c h

module _ {io : Io} (ok : IsIo io) (p : ℕ) (pg : Page) where
  write_member-Took : (m : Member) → usable m ≡ true → Took p pg m (write_member io none p pg m).1
  unfolding write_member
  write_member-Took m u = record {
    was_live = ground (arith, ok.flags m p pg);
    has = ground (arith, ok.flags m p pg, ok.stored m p pg);
    keeps = λ q h. ground (arith, ok.others m p q pg h);
  }

  unusable-Took : (m : Member) → usable m ≡ false → Took p pg m m
  unusable-Took m u = record {
    was_live = λ h. h;
    has = λ h. absurd (ground arith);
    keeps = λ q h. refl;
  }

  -- Every member that is still live has the page.
  pub write_slots-Took :
      (i : ℕ) (slots : Slots) → Changed (Took p pg) slots (write_slots io none p pg i slots).slots
  unfolding write_slots
  write_slots-Took i [] = nil
  write_slots-Took i (none ∷ slots) = gap (write_slots-Took (i + 1) slots)
  write_slots-Took i (some m ∷ slots) =
      let rest = write_slots-Took (i + 1) slots in
      elim (Bool-cases (usable m)) [
        | inl u ↦ rw u (one (write_member-Took m u) rest)
        | inr u ↦ rw u (one (unusable-Took m u) rest)
      ]
