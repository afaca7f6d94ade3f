-- ===== src/Rowmap/Page.antt =====
-- km/raid_km-rowmap.c, the on-disk pages: `rk_rm_page_crc`, `rk_rm_seal`, `rk_rm_check`. A page is
-- kept by its fields, in the byte order of the host; crc32c is the kernel's.
use mathlib.Core.Path.{ap₂}
use md_kmec.Base.{
  ℕ, ◌+◌, ◌*◌, ◌%◌, ◌<◌, ◌≡◌, refl, List, [], ◌∷◌, Bool, true, not, ◌&&◌, at, slice, arith, ◌==◌,
  if◌then◌else◌, bit_xor, get_or-slice, ==_iff, ◌∙◌, ap, Bool-cases, inl, inr,
}
use md_kmec.Rowmap.Pack.{
  body_bytes, rows_per_page, page_of, state_in, byte_index, byte_index-lem, field,
}

pub record Page : Type 0 where
  pub body : List ℕ
  pub id : ℕ
  pub gen : ℕ
  pub crc : ℕ

abbrev pub magic : ℕ
magic = 0x524b524d

unfoldable pub all_zero : List ℕ → Bool
all_zero [] = true
all_zero (b ∷ bs) = b == 0 && all_zero bs

-- `!memchr_inv(buf, 0, RK_RM_PAGE)`.
unfoldable pub is_blank : Page → Bool
is_blank pg = all_zero pg.body && pg.id == 0 && pg.gen == 0 && pg.crc == 0

-- The bytes of page `p` of a map.
unfoldable pub page_body : List ℕ → ℕ → List ℕ
page_body map p = slice (p * body_bytes) body_bytes map

-- 1 with the generation, 0, or -1.
pub data Verdict : Type 0 where
  good : ℕ → Verdict
  blank untrusted : Verdict

-- `crc32c` is crc32c(0, ...) of a body, an id and a generation.
module _ (crc32c : List ℕ → ℕ → ℕ → ℕ) where
  unfoldable pub page_crc : List ℕ → ℕ → ℕ → ℕ
  page_crc body id gen = bit_xor (crc32c body id gen) magic

  unfoldable pub seal : ℕ → List ℕ → ℕ → Page
  seal id body gen = record { body = body; id = id; gen = gen; crc = page_crc body id gen }

  unfoldable pub check : ℕ → Page → Verdict
  check id pg =
      if is_blank pg
      then blank
      else if not (pg.crc == page_crc pg.body pg.id pg.gen)
      then untrusted
      else if not (pg.id == id)
      then untrusted
      else good pg.gen

  -- What the code relies on: without its seed and final complement, crc32c takes zeroes to 0.
  abbrev pub KeepsZero : Type 0
  KeepsZero = (body : List ℕ) → all_zero body ≡ true → crc32c body 0 0 ≡ 0

  -- A sealed page is a good page of its array, of the generation that it was sealed with: no body
  -- makes it look unwritten or damaged.
  pub check-seal :
      KeepsZero → (id : ℕ) (body : List ℕ) (gen : ℕ) → check id (seal id body gen) ≡ good gen
  unfolding check seal is_blank page_crc
  check-seal zeroes id body gen =
      let xored : bit_xor 0 magic ≡ magic = refl in
      elim (Bool-cases (is_blank (seal id body gen))) [
        | inl b ↦ absurd (ground (arith, zeroes body, xored))
        | inr b ↦ ground (arith, ==_iff (page_crc body id gen) (page_crc body id gen))
      ]

-- A row of a page is the row of the map.
pub state_in-page_body :
    (map : List ℕ) (row : ℕ)
    → state_in (page_body map (page_of row)) (row % rows_per_page) ≡ state_in map row
unfolding state_in page_body
state_in-page_body map row =
    let inside : byte_index (row % rows_per_page) < body_bytes =
      omega (arith, byte_index-lem (row % rows_per_page)) in
    let read =
      get_or-slice (page_of row * body_bytes) body_bytes map (byte_index (row % rows_per_page)) 0
        inside in
    let index : page_of row * body_bytes + byte_index (row % rows_per_page) ≡ byte_index row =
      omega (arith, byte_index-lem (row % rows_per_page), byte_index-lem row) in
    let quarter : row % rows_per_page % 4 ≡ row % 4 = omega arith in
    ap₂ field (read ∙ ap (at map) index) quarter
