-- ===== src/Snap/Record.antt =====
-- The journal's operations as bytes: `rk_sn_op_size`, `rk_sn_op_put` and `rk_sn_op_get` of
-- km/raid_km-snapmeta.c. What is put is the list of the bytes; what is got is read from the bytes up
-- to the record's end. `mem` says whether the kernel has memory for what the parser keeps.
pub mod RoundTrip
use md_kmec.Base.{
  ℕ, zero, suc, ◌+◌, ◌-◌, ◌*◌, ◌/◌, ◌%◌, ◌^◌, ◌≤◌, ◌<◌, ◌≡◌, ◌≢◌, refl, Bool, true, false, Option,
  none, some, List, [], ◌∷◌, ◌++◌, length, fit, ltb, leb, ◌==◌, if◌then◌else◌, le_bytes, le_value,
  take, drop, c_string, ◌||◌,
}
use md_kmec.Snap.State.{SnapOne, Text, Op, redirect, create, destroy, rename, name_size, attrs_size}
use md_kmec.Snap.Apply.{strscpy}

-- `rk_sn_op_size`.
unfoldable pub op_size : Op → ℕ
op_size (redirect row old_phys new_phys) = 1 + 12
op_size (create g) = 1 + 1 + 4 + 8 + name_size + 2 + length g.attrs
op_size (destroy s) = 1 + 1
op_size (rename s text) = 1 + 1 + name_size
op_size (Op.set s text) = 1 + 1 + 2 + length text

-- `rk_sn_op_put`.
unfoldable pub op_put : Op → List ℕ
op_put (redirect row old_phys new_phys) =
    1 ∷ le_bytes 4 row ++ le_bytes 4 old_phys ++ le_bytes 4 new_phys
op_put (create g) =
    2 ∷ g.slot ∷ le_bytes 4 g.id
    ++ le_bytes 8 g.ctime
    ++ fit 0 name_size g.name
    ++ le_bytes 2 (length g.attrs)
    ++ g.attrs
op_put (destroy s) = 3 ∷ s ∷ []
op_put (rename s text) = 4 ∷ s ∷ fit 0 name_size (strscpy name_size text)
op_put (Op.set s text) = 5 ∷ s ∷ le_bytes 2 (length text) ++ text

abbrev pub field : ℕ → ℕ → List ℕ → ℕ
field off n p = le_value (take n (drop off p))

abbrev Parsed : Type 0
Parsed = Option (Op × List ℕ)

-- Each of these starts after the type's byte.
unfoldable pub get_redirect : List ℕ → Parsed
get_redirect p =
    if ltb (length p) 12
    then none
    else some (redirect (field 0 4 p) (field 4 4 p) (field 8 4 p), drop 12 p)

abbrev pub create_head : ℕ
create_head = 1 + 12 + name_size + 2

unfoldable pub get_create : Bool → List ℕ → Parsed
get_create mem p =
    let n = field (1 + 12 + name_size) 2 p in
    if ltb (length p) create_head
    then none
    else if leb attrs_size n || ltb (length p) (create_head + n)
    then none
    else if mem
    then some (
      create record {
        id = field 1 4 p;
        slot = field 0 1 p;
        name = c_string (take (name_size - 1) (drop 13 p));
        attrs = c_string (take n (drop create_head p));
        ctime = field 5 8 p;
        exc = [];
        nexc = 0;
      },
      drop (create_head + n) p,
    )
    else none

unfoldable pub get_destroy : List ℕ → Parsed
get_destroy [] = none
get_destroy (s ∷ p) = some (destroy s, p)

unfoldable pub get_rename : Bool → List ℕ → Parsed
get_rename mem p =
    if ltb (length p) (1 + name_size)
    then none
    else if mem
    then some
        (rename (field 0 1 p) (c_string (take (name_size - 1) (drop 1 p))), drop (1 + name_size) p)
    else none

unfoldable pub get_set : Bool → List ℕ → Parsed
get_set mem p =
    let n = field 1 2 p in
    if ltb (length p) 3
    then none
    else if leb attrs_size n || ltb (length p) (3 + n)
    then none
    else if mem
    then some (Op.set (field 0 1 p) (c_string (take n (drop 3 p))), drop (3 + n) p)
    else none

-- `rk_sn_op_get`.
unfoldable pub op_get : Bool → List ℕ → Parsed
unfolding get_redirect get_create get_destroy get_rename get_set
op_get mem [] = none
op_get mem (t ∷ p) =
    if t == 1
    then get_redirect p
    else if t == 2
    then get_create mem p
    else if t == 3
    then get_destroy p
    else if t == 4
    then get_rename mem p
    else if t == 5
    then get_set mem p
    else none
