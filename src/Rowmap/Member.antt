-- ===== src/Rowmap/Member.antt =====
-- The members of the array as the row map sees them: km/raid_km-rowmap.c, `rk_rm_member` and
-- `rk_rm_write_page`; and what `raid5_error` (km/raid_km.c) does to a member. The device itself,
-- `sync_page_io`, is a parameter.
pub mod Writes
use md_kmec.Base.{
  ℕ, zero, suc, ◌+◌, List, [], ◌∷◌, Bool, true, false, not, ◌&&◌, ◌||◌, Option, none, some, ◌≡◌,
  ◌≢◌, ◌==◌, if◌then◌else◌, ltb,
}
use md_kmec.Rowmap.Page.{Page}

-- A member or a replacement, with the pages of its tail reserve.
pub record Member : Type 0 where
  pub bdev : Bool
  pub faulty : Bool
  pub in_sync : Bool
  pub pages : ℕ → Page

-- `conf->disks[]`: slot 2 i holds the member of disk i, and slot 2 i + 1 its replacement.
abbrev pub Slots : Type 0
Slots = List (Option Member)

-- `rk_rm_member` returns the members that are not failed.
abbrev pub usable : Member → Bool
usable m = not m.faulty && m.bdev

-- `md_error`, that is `raid5_error`, fails the member.
abbrev pub error_member : Member → Member
error_member m = record m { faulty = true; in_sync = false }

-- `sync_page_io` for a page of the map: a write, which can fail, and a read.
pub record Io : Type 0 where
  pub write : Member → ℕ → Page → Bool × Member
  pub read : Member → ℕ → Option Page

-- What the code relies on: a write that succeeds stores the page, a write leaves the other pages
-- and the flags alone, and a read returns what is stored.
pub record IsIo (io : Io) : Type 0 where
  pub stored :
      (m : Member) (p : ℕ) (pg : Page)
      → (io.write m p pg).0 ≡ true
      → (io.write m p pg).1.pages p ≡ pg
  pub others : (m : Member) (p q : ℕ) (pg : Page) → p ≢ q → (io.write m p pg).1.pages q ≡ m.pages q
  pub flags :
      (m : Member) (p : ℕ) (pg : Page)
      → ((io.write m p pg).1.faulty ≡ m.faulty)
        × ((io.write m p pg).1.in_sync ≡ m.in_sync)
        × ((io.write m p pg).1.bdev ≡ m.bdev)
  pub reads : (m : Member) (p : ℕ) {pg : Page} → io.read m p ≡ some pg → pg ≡ m.pages p

-- What the loop of `rk_rm_write_page` changes: the members, `ok`, `tried`, and the error count.
pub record Written : Type 0 where
  pub slots : Slots
  pub ok : ℕ
  pub tried : ℕ
  pub errors : ℕ

-- Is this slot to be written? `only` is the slot of the one member to write, if there is one.
abbrev pub wanted : Option ℕ → ℕ → Bool
wanted none i = true
wanted (some j) i = i == j

module _ (io : Io) (only : Option ℕ) (p : ℕ) (pg : Page) where
  -- One member: the write, and `md_error` where it fails.
  unfoldable pub write_member : Member → Bool × Member
  write_member m = let (took, m') = io.write m p pg in (took, if took then m' else error_member m')

  -- The slots from `i` on.
  unfoldable pub write_slots : ℕ → Slots → Written
  write_slots i [] = record { slots = []; ok = 0; tried = 0; errors = 0 }
  write_slots i (none ∷ slots) =
      let rest = write_slots (i + 1) slots in record rest { slots = none ∷ rest.slots }
  write_slots i (some m ∷ slots) =
      let rest = write_slots (i + 1) slots in
      let (took, m') = write_member m in
      let kept : Written = record rest { slots = some m ∷ rest.slots } in
      let done : Written = record {
        slots = some m' ∷ rest.slots;
        ok = (if took then 1 else 0) + rest.ok;
        tried = 1 + rest.tried;
        errors = (if took then 0 else 1) + rest.errors;
      } in
      if usable m && wanted only i then done else kept

-- What `rk_rm_write_page` returns: how many members took the page, or -1.
abbrev pub took_by : Written → Option ℕ
took_by w = if w.tried == 0 then none else some w.ok
