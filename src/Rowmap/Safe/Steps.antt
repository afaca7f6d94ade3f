-- ===== src/Rowmap/Safe/Steps.antt =====
-- The row map as a step system: writers, discards, failing members and the pieces of the flush in
-- any order. A crash may come after any step.
use md_kmec.Base.{
  ℕ, zero, suc, ◌+◌, ◌/◌, ◌^◌, ◌≤◌, ◌<◌, ◌≡◌, List, [], ◌∷◌, Bool, true, false, Option, none, some,
  arith, get_elem?, ap,
}
use md_kmec.Rowmap.Pack.{page_of, state_n, state_s}
use md_kmec.Rowmap.Sync.{Pass, convert, pass_end}
use md_kmec.Rowmap.Sync.Convert.{mark-Moves, pass_end-Moves}
use md_kmec.Rowmap.State.{need_of}
use md_kmec.Rowmap.Note.{note_write, note_row_written, note_discard}
use md_kmec.Rowmap.Page.{KeepsZero}
use md_kmec.Rowmap.Member.{Member, Slots, Io, IsIo, error_member}
use md_kmec.Rowmap.Member.Writes.{live}
use md_kmec.Rowmap.Flush.{
  Sys, Flight, todo_at, flush_begin, flush_clear, flush_page, flush_end, is_past, stripe_parks,
}
use md_kmec.Rowmap.Safe.{IsUsed, OnDisk, IsSafe, FlightSafe}
use md_kmec.Rowmap.Safe.Moves.{
  Moves-IsSafe, note_write-Moves, note_row_written-Moves, note_discard-Moves,
}
use md_kmec.Rowmap.Safe.Flushing.{
  flush_begin-IsSafe, flush_clear-IsSafe, flush_page-IsSafe, flush_end-IsSafe,
}

-- `md_error` on the member of a slot.
unfoldable pub fail_slot : ℕ → Slots → Slots
fail_slot i [] = []
fail_slot zero (none ∷ slots) = none ∷ slots
fail_slot zero (some m ∷ slots) = some (error_member m) ∷ slots
fail_slot (suc i) (s ∷ slots) = s ∷ fail_slot i slots

-- A member that is live after a failure was there before it.
fail_slot-live :
    (i j : ℕ) (slots : Slots) (m : Member)
    → get_elem? (fail_slot i slots) j ≡ some (some m)
    → live m ≡ true
    → get_elem? slots j ≡ some (some m)
unfolding fail_slot
fail_slot-live i j [] m h l = h
fail_slot-live zero j (none ∷ slots) m h l = h
fail_slot-live zero zero (some k ∷ slots) m h l =
    absurd (let same : error_member k ≡ m = cc in ground (arith, ap live same))
fail_slot-live zero (suc j) (some k ∷ slots) m h l = h
fail_slot-live (suc i) zero (s ∷ slots) m h l = h
fail_slot-live (suc i) (suc j) (s ∷ slots) m h l = fail_slot-live i j slots m h l

module _ (crc32c : List ℕ → ℕ → ℕ → ℕ) (io : Io) where
  -- One critical section of the code, or one page of a flush. Only one flush runs at a time
  -- (`flush_mutex`), and the epoch is far from wrapping.
  pub data Step : Sys → Option Flight → Sys → Option Flight → Type 0 where
    write :
        (sys : Sys) (f : Option Flight) (rs sector sectors : ℕ)
        → Step sys f (record sys { rm = (note_write sys.rm rs sector sectors).0 }) f
    row_written :
        (sys : Sys) (f : Option Flight) (row : ℕ)
        → Step sys f (record sys { rm = note_row_written sys.rm row }) f
    discard :
        (sys : Sys) (f : Option Flight) (first_row last_row : ℕ)
        → Step sys f (record sys { rm = note_discard sys.rm first_row last_row }) f
    mark :
        (sys : Sys) (f : Option Flight)
        → Step sys f
            (record sys {
              rm = record (convert sys.rm state_n state_s false).0 { pass_marked = true };
            })
            f
    pass_over :
        (sys : Sys) (f : Option Flight) (pass : Pass) (max_sector : ℕ)
        → Step sys f (record sys { rm = pass_end pass sys.rm max_sector }) f
    fail :
        (sys : Sys) (f : Option Flight) (i : ℕ)
        → Step sys f (record sys { slots = fail_slot i sys.slots }) f
    begin :
        (sys : Sys) (alloc : Bool)
        → sys.rm.epoch + 2 < 2 ^ 63
        → Step sys none
            (record sys { rm = (flush_begin alloc sys.rm).0 })
            (some (flush_begin alloc sys.rm).1)
    clear :
        (sys : Sys) (f : Flight)
        → f.next ≡ 0
        → ((p : ℕ) → p < sys.rm.npages → todo_at f p ≡ true)
        → Step sys (some f) (record sys { rm = flush_clear false sys.rm }) (some f)
    page :
        (sys : Sys) (f : Flight)
        → Step sys (some f) (flush_page crc32c io sys f).0 (some (flush_page crc32c io sys f).1)
    end :
        (sys : Sys) (f : Flight)
        → sys.rm.npages ≤ f.next
        → Step sys (some f) (record sys { rm = (flush_end sys.rm f).0 }) none

  -- Any number of steps.
  pub data Steps (sys : Sys) (f : Option Flight) : Sys → Option Flight → Type 0 where
    start : Steps sys f sys f
    next : {a b : Sys} {g h : Option Flight} → Steps sys f a g → Step a g b h → Steps sys f b h

  fail-IsSafe :
      (sys : Sys) (f : Option Flight) (i : ℕ)
      → IsSafe crc32c sys f
      → IsSafe crc32c (record sys { slots = fail_slot i sys.slots }) f
  fail-IsSafe sys f i s = record {
    sized = s.sized;
    epochs = s.epochs;
    small = s.small;
    asked = s.asked;
    clean = λ r h u c q. less (s.clean r h u c q);
    settled = λ r h u n. less (s.settled r h u n);
    flying = flight f s.flying;
  }
    where
      less :
          {r : ℕ}
          → OnDisk crc32c sys.rm.id r sys.slots
          → OnDisk crc32c sys.rm.id r (fail_slot i sys.slots)
      less d = record { held = λ j m h l. d.held j m (fail_slot-live i j sys.slots m h l) l }

      flight :
          (g : Option Flight)
          → FlightSafe crc32c sys g
          → FlightSafe crc32c (record sys { slots = fail_slot i sys.slots }) g
      flight none x = tt
      flight (some g) x = (x.0, λ r h u n q o. less (x.1 r h u n q o))

  module _ (ok : IsIo io) (zeroes : KeepsZero crc32c) where
    Step-IsSafe :
        {a b : Sys} {g h : Option Flight} → Step a g b h → IsSafe crc32c a g → IsSafe crc32c b h
    Step-IsSafe (write sys f rs sector sectors) s =
        Moves-IsSafe crc32c (note_write-Moves sys.rm rs sector sectors s.sized) s
    Step-IsSafe (row_written sys f row) s =
        Moves-IsSafe crc32c (note_row_written-Moves sys.rm row s.sized) s
    Step-IsSafe (discard sys f a b) s =
        Moves-IsSafe crc32c (note_discard-Moves sys.rm a b s.sized) s
    Step-IsSafe (mark sys f) s = Moves-IsSafe crc32c (mark-Moves sys.rm s.sized) s
    Step-IsSafe (pass_over sys f pass max_sector) s =
        Moves-IsSafe crc32c (pass_end-Moves pass sys.rm max_sector s.sized) s
    Step-IsSafe (fail sys f i) s = fail-IsSafe sys f i s
    Step-IsSafe (begin sys alloc room) s = flush_begin-IsSafe crc32c sys s room alloc
    Step-IsSafe (clear sys f first all) s = flush_clear-IsSafe crc32c sys f first all s
    Step-IsSafe (page sys f) s = flush_page-IsSafe crc32c ok zeroes sys f s
    Step-IsSafe (end sys f last) s = flush_end-IsSafe crc32c sys f last s

    pub Steps-IsSafe :
        {a : Sys} {g : Option Flight} {b : Sys} {h : Option Flight}
        → IsSafe crc32c a g
        → Steps a g b h
        → IsSafe crc32c b h
    Steps-IsSafe s start = s
    Steps-IsSafe s (next steps step) = Step-IsSafe step (Steps-IsSafe s steps)

-- What the wait of a stripe tests.
is_past-le :
    (need durable : ℕ)
    → need < 2 ^ 63
    → durable < 2 ^ 63
    → is_past need durable ≡ true
    → need ≤ durable
is_past-le need durable small d h = ground arith

module _ (crc32c : List ℕ → ℕ → ℕ → ℕ) {io : Io} (ok : IsIo io) (zeroes : KeepsZero crc32c) where
  -- A stripe of a used row that is not parked has its row on disk: after any steps of writers,
  -- discards, passes, failing members and flushes from a safe state, every member that is live holds
  -- a good page that calls the row used. A device keeps what it has taken, and the checksum takes
  -- zeroes to 0.
  pub stripe_parks-OnDisk :
      {a : Sys} {g : Option Flight} {b : Sys} {h : Option Flight} (sector : ℕ)
      → IsSafe crc32c a g
      → Steps crc32c io a g b h
      → sector / b.rm.chunk_sectors < b.rm.nrows
      → IsUsed b.rm (sector / b.rm.chunk_sectors)
      → stripe_parks b.rm sector ≡ false
      → OnDisk crc32c b.rm.id (sector / b.rm.chunk_sectors) b.slots
  unfolding stripe_parks
  stripe_parks-OnDisk {b} sector s steps inside u goes =
      let safe = Steps-IsSafe crc32c io ok zeroes s steps in
      let row = sector / b.rm.chunk_sectors in
      let page = page_of row in
      let past : is_past (need_of b.rm page) b.rm.durable ≡ true = ground arith in
      safe.settled row inside u (
        is_past-le (need_of b.rm page) b.rm.durable (omega (arith, safe.asked page, safe.small))
          (omega (arith, safe.epochs, safe.small)) past)
