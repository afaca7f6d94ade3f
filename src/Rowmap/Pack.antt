-- ===== src/Rowmap/Pack.antt =====
-- km/raid_km-rowmap.c, the packed states: four rows to a byte, `RK_RM_BODY` bytes to a page.
use md_kmec.Base.{
  ℕ_discrete, ap, ◌∙◌, false, ℕ, zero, suc, ◌+◌, ◌-◌, ◌*◌, ◌/◌, ◌%◌, ◌^◌, ◌<◌, ◌≤◌, ◌≡◌, refl, List,
  Bool, true, at, set, length, arith, ◌>>>◌, bit_and, bit_or, ◌==◌, if◌then◌else◌, ◌&&◌, ==_iff,
  get_or-set, length-set, ltb, ltb_iff,
}

-- RK_RM_U, RK_RM_N, RK_RM_W, RK_RM_S.
abbrev pub state_u : ℕ
state_u = 0

abbrev pub state_n : ℕ
state_n = 1

abbrev pub state_w : ℕ
state_w = 2

abbrev pub state_s : ℕ
state_s = 3

abbrev pub body_bytes : ℕ
body_bytes = 4080

abbrev pub rows_per_page : ℕ
rows_per_page = body_bytes * 4

-- The index of a row's byte in the map.
unfoldable pub byte_index : ℕ → ℕ
byte_index row =
    let p = row / rows_per_page in let off = row - p * rows_per_page in p * body_bytes + (off >>> 2)

abbrev pub page_of : ℕ → ℕ
page_of row = row / rows_per_page

-- The two bits of a byte at shift 2 * q, read and written; `~` is that of a byte.
unfoldable pub field : ℕ → ℕ → ℕ
field b q = bit_and (b >>> (q * 2)) 3

unfoldable pub put_field : ℕ → ℕ → ℕ → ℕ
put_field b q st = let sh = q * 2 in bit_or (bit_and b (255 - 3 * 2 ^ sh)) (st * 2 ^ sh)

-- The state of a row in the bytes of a map. `row & 3` is `row % 4`.
unfoldable pub state_in : List ℕ → ℕ → ℕ
state_in bytes row = field (at bytes (byte_index row)) (row % 4)

unfoldable pub set_state_in : List ℕ → ℕ → ℕ → List ℕ
set_state_in bytes row st =
    set bytes (byte_index row) (put_field (at bytes (byte_index row)) (row % 4) st)

pub byte_index-lem : (row : ℕ) → byte_index row ≡ row / 4
unfolding byte_index
byte_index-lem row = omega arith

-- Does a test hold at each number below a limit?
passes : (ℕ → Bool) → ℕ → Bool
passes test zero = true
passes test (suc limit) = if test limit then passes test limit else false

passes-at :
    (test : ℕ → Bool) (limit : ℕ) → passes test limit ≡ true → (i : ℕ) → i < limit → test i ≡ true
unfolding passes
passes-at test zero h i below = absurd (omega arith)
passes-at test (suc limit) h i below =
    let at_limit : test limit ≡ true = ground arith in
    let before = passes-at test limit (ground arith) in
    elim (ℕ_discrete i limit) [
      | yes same ↦ ap test same ∙ at_limit
      | no ne ↦ before i (omega arith)
    ]

-- Every byte, every field and every state: the field that was written reads back, the others stay.
fields_table :
    passes
      (λ b.
        passes
          (λ q.
            passes
              (λ st.
                ltb (put_field b q st) 256
                && passes (λ r. field (put_field b q st) r == (if q == r then st else field b r)) 4)
              4)
          4)
      256
    ≡ true
unfolding passes field put_field
fields_table = refl

put_field-fields :
    (b q st : ℕ)
    → b < 256
    → q < 4
    → st < 4
    → (put_field b q st < 256)
      × ((r : ℕ) → r < 4 → field (put_field b q st) r ≡ (if q == r then st else field b r))
put_field-fields b q st hb hq hst =
    let row1 = passes-at _ 256 fields_table b hb in
    let row2 = passes-at _ 4 row1 q hq in
    let row3 = passes-at _ 4 row2 st hst in
    let (small, reads) = both row3 in
    ((ltb_iff _ _).0 small, λ r hr. (==_iff _ _).0 (passes-at _ 4 reads r hr))
  where
    both : {x y : Bool} → (x && y) ≡ true → (x ≡ true) × (y ≡ true)
    both {x} {y} h = ground arith

-- A map is a list of bytes, with four rows in each.
pub record IsMap (nrows : ℕ) (bytes : List ℕ) : Type 0 where
  pub room : nrows ≤ 4 * length bytes
  pub is_byte : (i : ℕ) → at bytes i < 256

-- A write of the two bits of a row of the map reads back, and leaves those of every other row.
pub state_in-set :
    {nrows : ℕ} {bytes : List ℕ} (row st r : ℕ)
    → IsMap nrows bytes
    → row < nrows
    → st < 4
    → state_in (set_state_in bytes row st) r ≡ (if row == r then st else state_in bytes r)
unfolding state_in set_state_in
state_in-set {bytes} row st r m h hst =
    let old = at bytes (byte_index row) in
    let inside : byte_index row < length bytes = omega (arith, byte_index-lem row, m.room) in
    let fits = put_field-fields old (row % 4) st (m.is_byte (byte_index row)) (omega arith) hst in
    ground (
      arith,
      get_or-set bytes (byte_index row) (byte_index r) (put_field old (row % 4) st) 0 inside,
      byte_index-lem row,
      byte_index-lem r,
      fits.1 (r % 4),
    )

pub set_state_in-IsMap :
    {nrows : ℕ} {bytes : List ℕ} (row st : ℕ)
    → IsMap nrows bytes
    → row < nrows
    → st < 4
    → IsMap nrows (set_state_in bytes row st)
unfolding set_state_in
set_state_in-IsMap {bytes} row st m h hst =
    let old = at bytes (byte_index row) in
    let new = put_field old (row % 4) st in
    let inside : byte_index row < length bytes = omega (arith, byte_index-lem row, m.room) in
    let fits = put_field-fields old (row % 4) st (m.is_byte (byte_index row)) (omega arith) hst in
    record {
      room = omega (arith, length-set bytes (byte_index row) new, m.room);
      is_byte = λ i.
          ground (arith, get_or-set bytes (byte_index row) i new 0 inside, m.is_byte i, fits.0);
    }
