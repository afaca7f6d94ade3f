-- ===== src/Rowmap/Flush.antt =====
-- km/raid_km-rowmap.c, `raidkm_rowmap_flush` in the pieces between which other tasks run: the
-- snapshot of the dirty pages, one page, and the end; and the wait for a flush,
-- `raidkm_rowmap_stripe_start`.
use md_kmec.Base.{
  ℕ, zero, suc, ◌+◌, ◌-◌, ◌/◌, ◌^◌, List, [], ◌∷◌, Bool, true, false, not, ◌&&◌, ◌||◌, none, set,
  get_or, u64, replicate, ◌==◌, leb, if◌then◌else◌,
}
use md_kmec.Rowmap.Page.{page_body, seal}
use md_kmec.Rowmap.Pack.{page_of}
use md_kmec.Rowmap.State.{Rowmap, need_of}
use md_kmec.Rowmap.Member.{Slots, Io, Written, write_slots}

-- The row map with the members.
pub record Sys : Type 0 where
  pub rm : Rowmap
  pub slots : Slots

-- The local variables of a flush: the epoch that it makes durable, the generation that it writes,
-- the pages to write, the next page of its loop, and whether a page reached no member.
pub record Flight : Type 0 where
  pub e : ℕ
  pub gen : ℕ
  pub todo : List Bool
  pub next : ℕ
  pub failed : Bool

-- `bitmap_empty`.
unfoldable pub bitmap_empty : List Bool → Bool
bitmap_empty [] = true
bitmap_empty (b ∷ bs) = not b && bitmap_empty bs

-- The first critical section. `alloc` says that there was memory for the snapshot: without it the
-- dirty marks stay for now, and every page is written. Where nothing is dirty the generation stays
-- and there is no page to write.
unfoldable pub flush_begin : Bool → Rowmap → Rowmap × Flight
flush_begin alloc rm =
    let e = u64 (rm.epoch + 1) in
    let clean : List Bool = replicate rm.npages false in
    let taken = record rm { epoch = e; dirty = if alloc then clean else rm.dirty } in
    let gen = u64 (rm.gen + 1) in
    let todo = if alloc then rm.dirty else replicate rm.npages true in
    if alloc && bitmap_empty rm.dirty
    then (taken, record { e = e; gen = rm.gen; todo = rm.dirty; next = 0; failed = false })
    else (
      record taken { gen = gen },
      record { e = e; gen = gen; todo = todo; next = 0; failed = false },
    )

-- The second one, where there was no memory for the snapshot, before the loop. What others marked in
-- between is written by it.
unfoldable pub flush_clear : Bool → Rowmap → Rowmap
flush_clear alloc rm = record rm { dirty = if alloc then rm.dirty else replicate rm.npages false }

abbrev pub todo_at : Flight → ℕ → Bool
todo_at f p = get_or f.todo p false

-- Did `rk_rm_write_page` return 0? Members were tried, and none took the page.
abbrev pub reached_none : Written → Bool
reached_none w = not (w.tried == 0) && w.ok == 0

-- From `done:` on, with what the flush returns.
unfoldable pub flush_end : Rowmap → Flight → Rowmap × Bool
flush_end rm f =
    let counts = record rm.counts { flushes = u64 (rm.counts.flushes + 1) } in
    let durable = if not f.failed then f.e else rm.durable in
    (record rm { durable = durable; counts = counts }, not f.failed)

module _ (crc32c : List ℕ → ℕ → ℕ → ℕ) (io : Io) where
  -- The body of the loop at the page `f.next`.
  unfoldable pub flush_page : Sys → Flight → Sys × Flight
  flush_page sys f =
      let rm = sys.rm in
      let p = f.next in
      let pg = seal crc32c rm.id (page_body rm.map p) f.gen in
      let w = write_slots io none p pg 0 sys.slots in
      let counts = record rm.counts {
        page_writes = u64 (rm.counts.page_writes + w.ok);
        write_errors = u64 (rm.counts.write_errors + w.errors);
      } in
      let counted = record rm { counts = counts } in
      let moved = record f { next = p + 1 } in
      let stays_dirty = record counted { dirty = set counted.dirty p true } in
      if not (todo_at f p)
      then (sys, moved)
      else if reached_none w
      then (record { rm = stays_dirty; slots = w.slots }, record moved { failed = true })
      else (record { rm = counted; slots = w.slots }, moved)

  unfoldable pub flush_pages : ℕ → Sys → Flight → Sys × Flight
  flush_pages zero sys f = (sys, f)
  flush_pages (suc left) sys f = let (sys', f') = flush_page sys f in flush_pages left sys' f'

  -- A flush that nothing interrupts.
  unfoldable pub flush : Bool → Sys → Sys × Bool
  flush alloc sys =
      let (rm, f) = flush_begin alloc sys.rm in
      let (sys', f') = flush_pages rm.npages (record sys { rm = flush_clear alloc rm }) f in
      let (rm', done) = flush_end sys'.rm f' in (record sys' { rm = rm' }, done)

-- `(s64)(need - durable) <= 0`.
abbrev pub is_past : ℕ → ℕ → Bool
is_past need durable = let d = u64 (need + 2 ^ 64 - durable) in d == 0 || leb (2 ^ 63) d

-- `raidkm_rowmap_stripe_start` on the stripe at a member sector: is it parked until the next flush?
unfoldable pub stripe_parks : Rowmap → ℕ → Bool
stripe_parks rm sector =
    let row = sector / rm.chunk_sectors in
    if leb rm.nrows row then false else not (is_past (need_of rm (page_of row)) rm.durable)
