-- ===== src/Rowmap/Load/Crash.antt =====
-- After a crash: what `raidkm_rowmap_init` loads from the members that are left.
use md_kmec.Base.{
  ℕ, zero, suc, ◌+◌, ◌-◌, ◌*◌, ◌/◌, ◌%◌, ◌<◌, ◌≡◌, ◌≢◌, refl, List, [], ◌∷◌, ◌++◌, Bool, true,
  false, not, ◌&&◌, ◌||◌, Option, none, some, ltb, length, at, arith, if◌then◌else◌, if_rule, ◌∙◌,
  ap, sym, length-fit, length-replicate, get_or-left, get_or-right,
}
use md_kmec.Rowmap.Pack.{
  state_u, body_bytes, rows_per_page, page_of, state_in, byte_index, byte_index-lem, field,
}
use md_kmec.Rowmap.Page.{Page, Verdict, good, blank, untrusted, check, KeepsZero}
use md_kmec.Rowmap.State.{get}
use md_kmec.Rowmap.Member.{Slots, Io, IsIo, usable}
use md_kmec.Rowmap.Flush.{Sys, Flight, stripe_parks}
use md_kmec.Rowmap.Safe.{IsUsed, IsSafe}
use md_kmec.Rowmap.Safe.Steps.{Steps, stripe_parks-OnDisk}
use md_kmec.Rowmap.Load.{
  Found, all_n, zeroes, load_checked, load_read, load_slots, load_page, load_pages, init,
}
use md_kmec.Rowmap.Load.Best.{some_live, load_page-used}

abbrev Whole : Found → Type 0
Whole f = length f.body ≡ body_bytes

load_checked-Whole : (v : Verdict) (pg : Page) (f : Found) → Whole f → Whole (load_checked v pg f)
unfolding load_checked
load_checked-Whole (good gen) pg f h =
    if_rule Whole (not f.have || ltb f.best gen) (λ _. length-fit 0 body_bytes pg.body) (λ _. h)
load_checked-Whole blank pg f h = h
load_checked-Whole untrusted pg f h = h

module _ (crc32c : List ℕ → ℕ → ℕ → ℕ) (io : Io) (id : ℕ) where
  load_read-Whole :
      (p : ℕ) (read : Option Page) (f : Found) → Whole f → Whole (load_read crc32c io id p read f)
  unfolding load_read
  load_read-Whole p none f h = h
  load_read-Whole p (some pg) f h = load_checked-Whole (check crc32c id pg) pg f h

  load_slots-Whole :
      (p : ℕ) (slots : Slots) (f : Found) → Whole f → Whole (load_slots crc32c io id p slots f)
  unfolding load_slots
  load_slots-Whole p [] f h = h
  load_slots-Whole p (none ∷ slots) f h = load_slots-Whole p slots f h
  load_slots-Whole p (some m ∷ slots) f h =
      load_slots-Whole p slots
        (if usable m && m.in_sync then load_read crc32c io id p (io.read m p) f else f)
        (if_rule Whole (usable m && m.in_sync) (λ _. load_read-Whole p (io.read m p) f h) (λ _. h))

  length-load_page :
      (p : ℕ) (slots : Slots) (gen : ℕ) → length (load_page crc32c io id p slots gen).0 ≡ body_bytes
  unfolding load_page
  length-load_page p slots gen =
      let start : Found = record { body = zeroes; best = 0; have = false; bad = false } in
      let f = load_slots crc32c io id p slots start in
      let whole = load_slots-Whole p slots start (length-replicate {A = ℕ} body_bytes 0) in
      if_rule (λ (x : List ℕ × ℕ). length x.0 ≡ body_bytes) f.have (λ _. whole)
        (λ _.
          if_rule (λ (x : List ℕ × ℕ). length x.0 ≡ body_bytes) f.bad
            (λ _. length-replicate {A = ℕ} body_bytes 85) (λ _. whole))

  -- The generation loaded so far does not matter to a page.
  load_page-body :
      (p : ℕ) (slots : Slots) (gen gen' : ℕ)
      → (load_page crc32c io id p slots gen).0 ≡ (load_page crc32c io id p slots gen').0
  unfolding load_page
  load_page-body p slots gen gen' =
      let f =
        load_slots crc32c io id p slots
          (record { body = zeroes; best = 0; have = false; bad = false }) in
      both f.have f.bad f.body (f.body, if ltb gen f.best then f.best else gen)
        (f.body, if ltb gen' f.best then f.best else gen') refl refl
    where
      both :
          (have bad : Bool) (body : List ℕ) (x y : List ℕ × ℕ)
          → x.0 ≡ body
          → y.0 ≡ body
          → (if have then x else if bad then (all_n, gen) else (body, gen)).0
            ≡ (if have then y else if bad then (all_n, gen') else (body, gen')).0
      both true bad body x y e e' = e ∙ sym e'
      both false true body x y e e' = refl
      both false false body x y e e' = refl

  -- Byte `k` of the `j`th page that is loaded.
  at-load_pages :
      (left p : ℕ) (slots : Slots) (gen j k : ℕ)
      → j < left
      → k < body_bytes
      → at (load_pages crc32c io id left p slots gen).0 (j * body_bytes + k)
        ≡ at (load_page crc32c io id (p + j) slots 0).0 k
  unfolding load_pages
  at-load_pages zero p slots gen j k hj hk = absurd (omega arith)
  at-load_pages (suc left) p slots gen zero k hj hk =
      let page = load_page crc32c io id p slots gen in
      let rest = load_pages crc32c io id left (p + 1) slots page.1 in
      let here : p + 0 ≡ p = omega arith in
      let index : 0 * body_bytes + k ≡ k = omega arith in
      ap (at (page.0 ++ rest.0)) index
      ∙ get_or-left page.0 rest.0 k 0 (omega (arith, length-load_page p slots gen))
      ∙ ap (λ body. at body k) (load_page-body p slots gen 0)
      ∙ ap (λ i. at (load_page crc32c io id i slots 0).0 k) (sym here)
  at-load_pages (suc left) p slots gen (suc j) k hj hk =
      let page = load_page crc32c io id p slots gen in
      let rest = load_pages crc32c io id left (p + 1) slots page.1 in
      let index : suc j * body_bytes + k ≡ length page.0 + (j * body_bytes + k) =
        omega (arith, length-load_page p slots gen) in
      let next : p + 1 + j ≡ p + suc j = omega arith in
      ap (at (page.0 ++ rest.0)) index
      ∙ get_or-right page.0 rest.0 (j * body_bytes + k) 0
      ∙ at-load_pages left (p + 1) slots page.1 j k (omega arith) hk
      ∙ ap (λ i. at (load_page crc32c io id i slots 0).0 k) next

  -- A row of the fresh map is the row of its page.
  pub get-init :
      (dev_sectors chunk_sectors : ℕ) (slots : Slots) (r : ℕ)
      → r < dev_sectors / chunk_sectors
      → get (init crc32c io id dev_sectors chunk_sectors slots) r
        ≡ state_in (load_page crc32c io id (page_of r) slots 0).0 (r % rows_per_page)
  unfolding get init state_in
  get-init dev_sectors chunk_sectors slots r h =
      let npages = (dev_sectors / chunk_sectors + rows_per_page - 1) / rows_per_page in
      let k = byte_index (r % rows_per_page) in
      let index : byte_index r ≡ page_of r * body_bytes + k =
        omega (arith, byte_index-lem r, byte_index-lem (r % rows_per_page)) in
      let quarter : r % rows_per_page % 4 ≡ r % 4 = omega arith in
      let byte =
        at-load_pages npages 0 slots 0 (page_of r) k (omega arith)
          (omega (arith, byte_index-lem (r % rows_per_page))) in
      let here : 0 + page_of r ≡ page_of r = omega arith in
      ap (λ i. field (at (load_pages crc32c io id npages 0 slots 0).0 i) (r % 4)) index
      ∙ ap (λ b. field b (r % 4)) (byte ∙ ap (λ i. at (load_page crc32c io id i slots 0).0 k) here)
      ∙ ap (field (at (load_page crc32c io id (page_of r) slots 0).0 k)) (sym quarter)

module _ (crc32c : List ℕ → ℕ → ℕ → ℕ) {io : Io} (ok : IsIo io) (keeps : KeepsZero crc32c) where
  -- No row that may hold data is loaded as unwritten: where the steps from a safe state come to a
  -- state with a used row whose stripe is not parked, and a member is live, an array of as many rows
  -- that is assembled from the members of that state has the row used.
  pub init-used :
      {a : Sys} {g : Option Flight} {b : Sys} {h : Option Flight}
      (sector dev_sectors chunk_sectors : ℕ)
      → IsSafe crc32c a g
      → Steps crc32c io a g b h
      → sector / b.rm.chunk_sectors < b.rm.nrows
      → IsUsed b.rm (sector / b.rm.chunk_sectors)
      → stripe_parks b.rm sector ≡ false
      → some_live b.slots ≡ true
      → dev_sectors / chunk_sectors ≡ b.rm.nrows
      → get (init crc32c io b.rm.id dev_sectors chunk_sectors b.slots) (sector / b.rm.chunk_sectors)
        ≢ state_u
  init-used {b} sector dev_sectors chunk_sectors s steps inside u goes some_on same =
      let row = sector / b.rm.chunk_sectors in
      let disk = stripe_parks-OnDisk crc32c ok keeps sector s steps inside u goes in
      omega (
        arith,
        get-init crc32c io b.rm.id dev_sectors chunk_sectors b.slots row (omega arith),
        load_page-used crc32c ok b.rm.id row b.slots 0 disk some_on,
      )
