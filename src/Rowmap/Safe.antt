-- ===== src/Rowmap/Safe.antt =====
-- The order of the writes: a row that a write may reach is on disk as used, on every member that
-- is live, however the flush and the writers interleave.
pub mod Moves
pub mod Flushing
pub mod Steps
use md_kmec.Base.{
  ℕ, ◌+◌, ◌%◌, ◌^◌, ◌≤◌, ◌<◌, ◌≡◌, ◌≢◌, ◌⊎◌, List, Bool, true, false, ◌&&◌, Option, none, some,
  get_elem?, leb,
}
use md_kmec.Rowmap.Pack.{state_u, page_of, rows_per_page, state_in}
use md_kmec.Rowmap.Page.{Page, check, good}
use md_kmec.Rowmap.State.{Rowmap, get, is_dirty, need_of, IsSized}
use md_kmec.Rowmap.Member.{Member, Slots}
use md_kmec.Rowmap.Member.Writes.{live}
use md_kmec.Rowmap.Flush.{Sys, Flight, todo_at}

-- A row other than U.
abbrev pub IsUsed : Rowmap → ℕ → Type 0
IsUsed rm r = get rm r ≢ state_u

-- The flush has still to write the page.
abbrev pub pending : Option Flight → ℕ → Bool
pending none p = false
pending (some f) p = todo_at f p && leb f.next p

module _ (crc32c : List ℕ → ℕ → ℕ → ℕ) where
  -- The member holds a good page that calls the row used.
  pub record HoldsRow (id r : ℕ) (m : Member) : Type 0 where
    pub gen : ℕ
    pub is_good : check crc32c id (m.pages (page_of r)) ≡ good gen
    pub used_there : state_in (m.pages (page_of r)).body (r % rows_per_page) ≢ state_u

  -- So do all the live members.
  pub record OnDisk (id r : ℕ) (slots : Slots) : Type 0 where
    pub held :
        (i : ℕ) (m : Member) → get_elem? slots i ≡ some (some m) → live m ≡ true → HoldsRow id r m

  -- The epoch that a running flush will make durable is not past the current one, and a page that
  -- it has written holds what needs that epoch.
  abbrev pub FlightSafe : Sys → Option Flight → Type 0
  FlightSafe sys none = Unit {0}
  FlightSafe sys (some f) =
      (f.e ≤ sys.rm.epoch)
      × ((r : ℕ)
          → r < sys.rm.nrows
          → IsUsed sys.rm r
          → need_of sys.rm (page_of r) ≤ f.e
          → pending (some f) (page_of r) ≡ false
          → f.failed ≡ false
          → OnDisk sys.rm.id r sys.slots)

  pub record IsSafe (sys : Sys) (flight : Option Flight) : Type 0 where
    pub sized : IsSized sys.rm
    pub epochs : sys.rm.durable ≤ sys.rm.epoch
    pub small : sys.rm.epoch + 1 < 2 ^ 63
    pub asked : (p : ℕ) → need_of sys.rm p ≤ sys.rm.epoch + 1
    pub clean :
        (r : ℕ)
        → r < sys.rm.nrows
        → IsUsed sys.rm r
        → is_dirty sys.rm (page_of r) ≡ false
        → pending flight (page_of r) ≡ false
        → OnDisk sys.rm.id r sys.slots
    pub settled :
        (r : ℕ)
        → r < sys.rm.nrows
        → IsUsed sys.rm r
        → need_of sys.rm (page_of r) ≤ sys.rm.durable
        → OnDisk sys.rm.id r sys.slots
    pub flying : FlightSafe sys flight
