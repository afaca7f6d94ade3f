-- ===== src/Snap/Record/RoundTrip.antt =====
-- What `rk_sn_op_put` of km/raid_km-snapmeta.c writes, `rk_sn_op_get` reads back.
use md_kmec.Base.{
  ℕ, zero, suc, ◌+◌, ◌-◌, ◌^◌, ◌≤◌, ◌<◌, ◌≡◌, refl, sym, ap, ◌∙◌, true, false, Option, none, some,
  List, [], ◌∷◌, ◌++◌, length, fit, length-fit, ltb, leb, if◌then◌else◌, le_bytes, le_value, take,
  drop, c_string, ◌||◌, le_value-le_bytes, length-le_bytes, take-append, drop-add, drop-append,
  take-fit_append, length-append, AllNonzero, c_string-text, c_string-fit, arith,
}
use mathlib.Core.List.{append_assoc}
use md_kmec.Snap.State.{SnapOne, Text, Op, redirect, create, destroy, rename, name_size, attrs_size}
use md_kmec.Snap.Apply.{strscpy}
use md_kmec.Snap.Record.{
  op_size, op_put, op_get, field, get_redirect, get_create, get_rename, get_set, create_head,
}

-- A C string that a buffer of `size` bytes holds.
pub record IsText (size : ℕ) (t : Text) : Type 0 where
  pub short : length t < size
  pub plain : AllNonzero t

-- An operation whose numbers are of the sizes of their fields, and whose texts fit.
abbrev pub IsRecordable : Op → Type 0
IsRecordable (redirect row old_phys new_phys) =
    (row < 256 ^ 4) × (old_phys < 256 ^ 4) × (new_phys < 256 ^ 4)
IsRecordable (create g) =
    (g.id < 256 ^ 4)
    × (g.ctime < 256 ^ 8)
    × (g.slot < 256)
    × IsText name_size g.name
    × IsText attrs_size g.attrs
    × (g.exc ≡ [])
    × (g.nexc ≡ 0)
IsRecordable (destroy s) = Unit
IsRecordable (rename s text) = (s < 256) × IsText name_size text
IsRecordable (Op.set s text) = (s < 256) × IsText attrs_size text

-- A name in its buffer of the record: the text, the number of bytes, and what follows.
name_back :
    (t : Text) (rest : List ℕ)
    → IsText name_size t
    → (c_string (take (name_size - 1) (fit 0 name_size t ++ rest)) ≡ t)
      × (drop name_size (fit 0 name_size t ++ rest) ≡ rest)
      × (length (fit 0 name_size t ++ rest) ≡ name_size + length rest)
name_back t rest h = (
  ap c_string (take-fit_append 0 63 t rest) ∙ c_string-fit 63 t h.plain (omega (arith, h.short)),
  drop-append name_size (fit 0 name_size t) rest (length-fit 0 name_size t),
  omega (arith, length-append (fit 0 name_size t) rest, length-fit 0 name_size t),
)

-- A text of a length that the record gives, and what follows.
text_back :
    (t : Text) (rest : List ℕ)
    → AllNonzero t
    → (c_string (take (length t) (t ++ rest)) ≡ t)
      × (drop (length t) (t ++ rest) ≡ rest)
      × (length (t ++ rest) ≡ length t + length rest)
text_back t rest h = (
  ap c_string (take-append (length t) t rest refl) ∙ c_string-text t h,
  drop-append (length t) t rest refl,
  length-append t rest,
)

pub strscpy-short : (n : ℕ) (t : Text) → length t ≤ n → strscpy (suc n) t ≡ t
unfolding strscpy
strscpy-short zero [] h = refl
strscpy-short zero (b ∷ t) h = absurd (omega (arith, h))
strscpy-short (suc n) [] h = refl
strscpy-short (suc n) (b ∷ t) h = ap (λ l. b ∷ l) (strscpy-short n t (omega (arith, h)))

redirect_back :
    (row old_phys new_phys : ℕ) (rest : List ℕ)
    → row < 256 ^ 4
    → old_phys < 256 ^ 4
    → new_phys < 256 ^ 4
    → get_redirect (le_bytes 4 row ++ (le_bytes 4 old_phys ++ (le_bytes 4 new_phys ++ rest)))
      ≡ some (redirect row old_phys new_phys, rest)
unfolding get_redirect take drop le_bytes
redirect_back row old_phys new_phys rest a b c =
    ground
      (arith, le_value-le_bytes 4 row, le_value-le_bytes 4 old_phys, le_value-le_bytes 4 new_phys)

-- A test of a length that is enough.
enough : (a b : ℕ) (x y : Option (Op × List ℕ)) → b ≤ a → (if ltb a b then x else y) ≡ y
enough a b x y h = let f : ltb a b ≡ false = ground arith in rw f refl

enough_both :
    (c a b : ℕ) (x y : Option (Op × List ℕ))
    → c < attrs_size
    → b ≤ a
    → (if leb attrs_size c || ltb a b then x else y) ≡ y
enough_both c a b x y hc h =
    let f : ltb a b ≡ false = ground arith in
    let g : leb attrs_size c ≡ false = ground arith in rw (f, g) refl

byte_back : (s : ℕ) → le_value (s ∷ []) ≡ s
unfolding le_value
byte_back s = omega arith

rename_back :
    (s : ℕ) (t : Text) (rest : List ℕ)
    → IsText name_size t
    → get_rename true (s ∷ (fit 0 name_size t ++ rest)) ≡ some (rename s t, rest)
unfolding get_rename drop take
rename_back s t rest h =
    let (text, left, len) = name_back t rest h in
    enough (suc (length (fit 0 name_size t ++ rest))) 65 _ _ (omega (arith, len))
    ∙ (λ i. some (rename (byte_back s i) (text i), left i))

-- A length in the record, before the bytes that it counts.
size_back : (n : ℕ) (rest : List ℕ) → n < 256 ^ 2 → le_value (take 2 (le_bytes 2 n ++ rest)) ≡ n
size_back n rest h =
    ap le_value (take-append 2 (le_bytes 2 n) rest (length-le_bytes 2 n)) ∙ le_value-le_bytes 2 n h

set_back :
    (s : ℕ) (t : Text) (rest : List ℕ)
    → IsText attrs_size t
    → get_set true (s ∷ (le_bytes 2 (length t) ++ (t ++ rest))) ≡ some (Op.set s t, rest)
unfolding get_set drop take
set_back s t rest h =
    let p = s ∷ (le_bytes 2 (length t) ++ (t ++ rest)) in
    let (text, left, len) = text_back t rest h.plain in
    let tail = drop-append 2 (le_bytes 2 (length t)) (t ++ rest) (length-le_bytes 2 (length t)) in
    let size = length-append (le_bytes 2 (length t)) (t ++ rest) in
    let all : length p ≡ 3 + length t + length rest =
      omega (arith, size, len, length-le_bytes 2 (length t)) in
    let body : ℕ → Option (Op × List ℕ) = λ v.
      if ltb (length p) 3
      then none
      else if leb attrs_size v || ltb (length p) (3 + v)
      then none
      else some (Op.set (le_value (s ∷ [])) (c_string (take v (drop 3 p))), drop (3 + v) p) in
    ap body (size_back (length t) (t ++ rest) (omega (arith, h.short)))
    ∙ enough (length p) 3 _ _ (omega (arith, all))
    ∙ enough_both (length t) (length p) (3 + length t) _ _ h.short (omega (arith, all))
    ∙ (λ i. some (
      Op.set (byte_back s i) ((ap (λ l. c_string (take (length t) l)) tail ∙ text) i),
      (drop-add 3 (length t) p ∙ ap (drop (length t)) tail ∙ left) i,
    ))

-- A number of `n` bytes, and what follows it.
number_back :
    (n v : ℕ) (rest : List ℕ)
    → v < 256 ^ n
    → (le_value (take n (le_bytes n v ++ rest)) ≡ v) × (drop n (le_bytes n v ++ rest) ≡ rest)
number_back n v rest h = (
  ap le_value (take-append n (le_bytes n v) rest (length-le_bytes n v)) ∙ le_value-le_bytes n v h,
  drop-append n (le_bytes n v) rest (length-le_bytes n v),
)

module _ (g : SnapOne) (rest : List ℕ) (small : IsRecordable (create g)) where
  abbrev from_attrs : List ℕ
  from_attrs = g.attrs ++ rest

  abbrev from_size : List ℕ
  from_size = le_bytes 2 (length g.attrs) ++ from_attrs

  abbrev from_name : List ℕ
  from_name = fit 0 name_size g.name ++ from_size

  abbrev from_time : List ℕ
  from_time = le_bytes 8 g.ctime ++ from_name

  abbrev from_id : List ℕ
  from_id = le_bytes 4 g.id ++ from_time

  abbrev body : List ℕ
  body = g.slot ∷ from_id

  at_time : drop 5 body ≡ from_time
  unfolding drop
  at_time = (number_back 4 g.id from_time small.0).1

  at_name : drop 13 body ≡ from_name
  at_name = drop-add 5 8 body ∙ ap (drop 8) at_time ∙ (number_back 8 g.ctime from_name small.1).1

  at_size : drop 77 body ≡ from_size
  at_size = drop-add 13 64 body ∙ ap (drop 64) at_name ∙ (name_back g.name from_size small.3).1

  at_attrs : drop 79 body ≡ from_attrs
  at_attrs =
      drop-add 77 2 body
      ∙ ap (drop 2) at_size
      ∙ (number_back 2 (length g.attrs) from_attrs (omega (arith, small.4.short))).1

  length-body : length body ≡ 79 + length g.attrs + length rest
  length-body = omega (
    arith,
    length-append (le_bytes 4 g.id) from_time,
    length-append (le_bytes 8 g.ctime) from_name,
    length-append (fit 0 name_size g.name) from_size,
    length-append (le_bytes 2 (length g.attrs)) from_attrs,
    length-append g.attrs rest,
    length-le_bytes 4 g.id,
    length-le_bytes 8 g.ctime,
    length-le_bytes 2 (length g.attrs),
    length-fit 0 name_size g.name,
  )

  -- What the parser makes of the bytes when the length that it reads is `v`.
  abbrev parsed : ℕ → Option (Op × List ℕ)
  parsed v =
      if ltb (length body) create_head
      then none
      else if leb attrs_size v || ltb (length body) (create_head + v)
      then none
      else some (
        create record {
          id = field 1 4 body;
          slot = field 0 1 body;
          name = c_string (take (name_size - 1) (drop 13 body));
          attrs = c_string (take v (drop create_head body));
          ctime = field 5 8 body;
          exc = [];
          nexc = 0;
        },
        drop (create_head + v) body,
      )

  slot_back : field 0 1 body ≡ g.slot
  unfolding drop take
  slot_back = byte_back g.slot

  id_back : field 1 4 body ≡ g.id
  unfolding drop
  id_back = (number_back 4 g.id from_time small.0).0

  create_back : get_create true body ≡ some (create g, rest)
  unfolding get_create
  create_back =
      let n = length g.attrs in
      let (text, left, len) = text_back g.attrs rest small.4.plain in
      let size : field 77 2 body ≡ n =
        ap (λ l. le_value (take 2 l)) at_size
        ∙ (number_back 2 n from_attrs (omega (arith, small.4.short))).0 in
      let name = ap (λ l. c_string (take 63 l)) at_name ∙ (name_back g.name from_size small.3).0 in
      let time =
        ap (λ l. le_value (take 8 l)) at_time ∙ (number_back 8 g.ctime from_name small.1).0 in
      let attrs = ap (λ l. c_string (take n l)) at_attrs ∙ text in
      let after = drop-add 79 n body ∙ ap (drop n) at_attrs ∙ left in
      let empty = sym small.5 in
      let none_yet = sym small.6 in
      ap parsed size
      ∙ enough (length body) 79 _ _ (omega (arith, length-body))
      ∙ enough_both n (length body) (79 + n) _ _ small.4.short (omega (arith, length-body))
      ∙ (λ i. some (
        create record {
          id = id_back i;
          slot = slot_back i;
          name = name i;
          attrs = attrs i;
          ctime = time i;
          exc = empty i;
          nexc = none_yet i;
        },
        after i,
      ))

-- Every operation that fits its record is read back from what was written, whatever follows, and it
-- takes the bytes that `rk_sn_op_size` counts.
pub op_get-op_put :
    (op : Op) (rest : List ℕ)
    → IsRecordable op
    → (op_get true (op_put op ++ rest) ≡ some (op, rest)) × (length (op_put op) ≡ op_size op)
unfolding op_get op_put op_size
op_get-op_put (redirect row old_phys new_phys) rest (a, b, c) = (
  simp append_assoc (redirect_back row old_phys new_phys rest a b c),
  omega (
    arith,
    length-append (le_bytes 4 row ++ le_bytes 4 old_phys) (le_bytes 4 new_phys),
    length-append (le_bytes 4 row) (le_bytes 4 old_phys),
    length-le_bytes 4 row,
    length-le_bytes 4 old_phys,
    length-le_bytes 4 new_phys,
  ),
)
op_get-op_put (create g) rest small =
    let a = le_bytes 4 g.id in
    let b = le_bytes 8 g.ctime in
    let c = fit 0 name_size g.name in
    let d = le_bytes 2 (length g.attrs) in
    (
      simp append_assoc (create_back g rest small),
      omega (
        arith,
        length-append (a ++ b ++ c ++ d) g.attrs,
        length-append (a ++ b ++ c) d,
        length-append (a ++ b) c,
        length-append a b,
        length-le_bytes 4 g.id,
        length-le_bytes 8 g.ctime,
        length-le_bytes 2 (length g.attrs),
        length-fit 0 name_size g.name,
      ),
    )
op_get-op_put (destroy s) rest small = (refl, refl)
op_get-op_put (rename s text) rest (_, h) =
    let t = strscpy-short 63 text (omega (arith, h.short)) in
    (
      ap (λ x. get_rename true (s ∷ (fit 0 name_size x ++ rest))) t ∙ rename_back s text rest h,
      omega (arith, length-fit 0 name_size (strscpy name_size text)),
    )
op_get-op_put (Op.set s text) rest (_, h) = (
  simp append_assoc (set_back s text rest h),
  omega (arith, length-append (le_bytes 2 (length text)) text, length-le_bytes 2 (length text)),
)
