-- ===== src/Snap/Region.antt =====
-- The region of the snapshot metadata on every member, in pages: km/raid_km_snap.h and the layout
-- functions of km/raid_km-snapmeta.c.
use md_kmec.Base.{
  ℕ, ◌+◌, ◌-◌, ◌*◌, ◌/◌, ◌%◌, ◌≤◌, ◌<◌, ◌≡◌, sym, ap, ◌∙◌, ltb, if◌then◌else◌, arith, div_of_parts,
  mod_of_parts,
}
use md_kmec.Snap.State.{rmap_per_page}

-- `RK_SN_PMAP_PER_PAGE`, `RK_SN_TBL_PAGES`, `RK_SN_OFF_TBL`, `RK_SN_OFF_PMAP`,
-- `RK_SN_JPAGES`.
abbrev pmap_per_page : ℕ
pmap_per_page = 4080

abbrev pub table_pages : ℕ
table_pages = 22

abbrev off_table : ℕ
off_table = 2

abbrev off_pmap : ℕ
off_pmap = 46

abbrev pub journal_pages : ℕ
journal_pages = 1024

-- `rk_sn_N`, `rk_sn_pmp`: rounded up.
unfoldable pub rmap_pages : ℕ → ℕ
rmap_pages rows = (rows + 509) / rmap_per_page

unfoldable pub pmap_pages : ℕ → ℕ
pmap_pages n = (n + 4079) / pmap_per_page

-- `rk_sn_off_rmap`, `rk_sn_off_jrnl`, with the two numbers above in `struct raidkm_snap`.
unfoldable pub off_rmap : ℕ → ℕ → ℕ → ℕ
off_rmap n pmp slot = off_pmap + 2 * pmp + slot * n

unfoldable pub off_journal : ℕ → ℕ → ℕ
off_journal n pmp = off_pmap + 2 * pmp + 2 * n

-- `rk_sn_region_pages`.
unfoldable pub region_pages : ℕ → ℕ
unfolding rmap_pages pmap_pages
region_pages rows = let n = rmap_pages rows in off_pmap + 2 * pmap_pages n + 2 * n + journal_pages

-- `rk_sn_jidx`: `RK_SN_JPAGES` is a power of two.
unfoldable pub journal_slot : ℕ → ℕ
journal_slot seq = seq % journal_pages

-- What a page of the region holds: a copy of the header, a page of a copy of the table or of the
-- page map, a page of the reverse map in one of its slots, a record of the ring.
pub data Area : Type 0 where
  header : ℕ → Area
  table : ℕ → ℕ → Area
  page_map : ℕ → ℕ → Area
  reverse_map : ℕ → ℕ → Area
  record_slot : ℕ → Area

-- Where the code reads and writes it.
unfoldable pub page_at : ℕ → ℕ → Area → ℕ
unfolding off_rmap off_journal
page_at n pmp (header copy) = copy
page_at n pmp (table copy i) = off_table + copy * table_pages + i
page_at n pmp (page_map copy p) = off_pmap + copy * pmp + p
page_at n pmp (reverse_map slot p) = off_rmap n pmp slot + p
page_at n pmp (record_slot i) = off_journal n pmp + i

abbrev pub IsArea : ℕ → ℕ → Area → Type 0
IsArea n pmp (header copy) = copy < 2
IsArea n pmp (table copy i) = (copy < 2) × (i < table_pages)
IsArea n pmp (page_map copy p) = (copy < 2) × (p < pmp)
IsArea n pmp (reverse_map slot p) = (slot < 2) × (p < n)
IsArea n pmp (record_slot i) = i < journal_pages

-- What the layout says of a page.
unfoldable pub area_at : ℕ → ℕ → ℕ → Area
area_at n pmp page =
    if ltb page off_table
    then header page
    else if ltb page off_pmap
    then table ((page - off_table) / table_pages) ((page - off_table) % table_pages)
    else if ltb page (off_pmap + 2 * pmp)
    then page_map ((page - off_pmap) / pmp) ((page - off_pmap) % pmp)
    else if ltb page (off_pmap + 2 * pmp + 2 * n)
    then reverse_map ((page - (off_pmap + 2 * pmp)) / n) ((page - (off_pmap + 2 * pmp)) % n)
    else record_slot (page - (off_pmap + 2 * pmp + 2 * n))

two_of : (c n p : ℕ) → c < 2 → p < n → c * n + p < 2 * n
two_of c n p h k = grind arith

inner : (a b c : ℕ) → a + b + c - a ≡ b + c
inner a b c = omega arith

-- Two things are never in one page: from the page, the layout gives back what it holds.
area_at-page_at : (n pmp : ℕ) (a : Area) → IsArea n pmp a → area_at n pmp (page_at n pmp a) ≡ a
unfolding area_at page_at off_rmap off_journal
area_at-page_at n pmp (header copy) h = ground arith
area_at-page_at n pmp (table copy i) h = ground arith
area_at-page_at n pmp (page_map copy p) (h, k) = ground (
  arith,
  two_of copy pmp p h k,
  div_of_parts copy p pmp k,
  mod_of_parts copy p pmp k,
  ap (λ x. x / pmp) (inner off_pmap (copy * pmp) p),
  ap (λ x. x % pmp) (inner off_pmap (copy * pmp) p),
)
area_at-page_at n pmp (reverse_map slot p) (h, k) = ground (
  arith,
  two_of slot n p h k,
  div_of_parts slot p n k,
  mod_of_parts slot p n k,
  ap (λ x. x / n) (inner (off_pmap + 2 * pmp) (slot * n) p),
  ap (λ x. x % n) (inner (off_pmap + 2 * pmp) (slot * n) p),
)
area_at-page_at n pmp (record_slot i) h = ground arith

-- Everything is inside the region whose size `rk_sn_region_pages` gives.
page_at-lt :
    (rows : ℕ) (a : Area)
    → let n = rmap_pages rows in
      IsArea n (pmap_pages n) a → page_at n (pmap_pages n) a < region_pages rows
unfolding page_at region_pages off_rmap off_journal
page_at-lt rows (header copy) h = omega arith
page_at-lt rows (table copy i) h = omega arith
page_at-lt rows (page_map copy p) (h, k) = omega (arith, two_of copy _ p h k)
page_at-lt rows (reverse_map slot p) (h, k) = omega (arith, two_of slot _ p h k)
page_at-lt rows (record_slot i) h = omega arith

-- The layout of a member's region: every page of metadata is inside it, two different pieces of
-- metadata are never in one page, and there are entries for all rows.
pub region_layout :
    (rows : ℕ) (a b : Area)
    → IsArea (rmap_pages rows) (pmap_pages (rmap_pages rows)) a
    → IsArea (rmap_pages rows) (pmap_pages (rmap_pages rows)) b
    → (page_at (rmap_pages rows) (pmap_pages (rmap_pages rows)) a < region_pages rows)
      × (page_at (rmap_pages rows) (pmap_pages (rmap_pages rows)) a
            ≡ page_at (rmap_pages rows) (pmap_pages (rmap_pages rows)) b
          → a ≡ b)
      × (rows ≤ rmap_pages rows * rmap_per_page)
      × (rmap_pages rows ≤ pmap_pages (rmap_pages rows) * pmap_per_page)
region_layout rows a b ha hb =
    let n = rmap_pages rows in
    let pmp = pmap_pages n in
    (
      page_at-lt rows a ha,
      λ e. sym (area_at-page_at n pmp a ha) ∙ ap (area_at n pmp) e ∙ area_at-page_at n pmp b hb,
      enough_entries rows,
      enough_bytes n,
    )
  where
    enough_entries : (r : ℕ) → r ≤ rmap_pages r * rmap_per_page
    enough_entries r = unfold rmap_pages in omega arith

    enough_bytes : (m : ℕ) → m ≤ pmap_pages m * pmap_per_page
    enough_bytes m = unfold pmap_pages in omega arith
