-- ===== src/Snap/Attrs.antt =====
-- The names and the attributes of snapshots in km/raid_km-snap.c: `rk_name_ok`, `rk_kv_ok`,
-- `rk_attr_set` and `rk_attrs_apply`. A C string is the list of its bytes, without the NUL.
pub mod Texts
use md_kmec.Base.{
  ℕ, zero, suc, ◌+◌, Bool, true, false, not, ◌&&◌, ◌||◌, Option, none, some, List, [], ◌∷◌, ◌++◌,
  length, leb, ◌==◌, if◌then◌else◌, ◌⊎◌, inl, inr,
}
use md_kmec.Snap.State.{Text, name_size, attrs_size}

pub data Error : Type 0 where
  invalid no_memory too_big exists_already not_found no_slot io_error in_use : Error

abbrev pub is_lower : ℕ → Bool
is_lower c = leb 97 c && leb c 122

abbrev pub is_digit : ℕ → Bool
is_digit c = leb 48 c && leb c 57

-- [a-z0-9_]
abbrev pub is_key_byte : ℕ → Bool
is_key_byte c = is_lower c || is_digit c || (c == 95)

-- [A-Za-z0-9._-]
abbrev pub is_name_byte : ℕ → Bool
is_name_byte c = is_key_byte c || (leb 65 c && leb c 90) || (c == 45) || (c == 46)

-- [A-Za-z0-9._:-]
abbrev pub is_value_byte : ℕ → Bool
is_value_byte c = is_name_byte c || (c == 58)

-- `strspn` comes to the end.
unfoldable pub all_of : (ℕ → Bool) → Text → Bool
all_of f [] = true
all_of f (b ∷ r) = f b && all_of f r

-- `strcmp` is 0.
unfoldable pub same_text : Text → Text → Bool
same_text [] [] = true
same_text [] (c ∷ r) = false
same_text (b ∷ l) [] = false
same_text (b ∷ l) (c ∷ r) = (b == c) && same_text l r

abbrev pub starts_with : ℕ → Text → Bool
starts_with c [] = false
starts_with c (b ∷ r) = b == c

-- `rk_name_ok`.
unfoldable pub name_ok : Text → Bool
unfolding all_of
name_ok name =
    not (length name == 0)
    && not (leb name_size (length name))
    && not (starts_with 45 name)
    && all_of is_name_byte name

-- The bytes before the first `c`, and those after it.
unfoldable pub until : ℕ → Text → Text
until c [] = []
until c (b ∷ r) = let rest = b ∷ until c r in if b == c then [] else rest

unfoldable pub past : ℕ → Text → Option Text
past c [] = none
past c (b ∷ r) = let rest = past c r in if b == c then some r else rest

-- name, id, ctime, dev, exc.
abbrev pub own_keys : List Text
own_keys =
    (110 ∷ 97 ∷ 109 ∷ 101 ∷ [])
    ∷ (105 ∷ 100 ∷ [])
    ∷ (99 ∷ 116 ∷ 105 ∷ 109 ∷ 101 ∷ [])
    ∷ (100 ∷ 101 ∷ 118 ∷ [])
    ∷ (101 ∷ 120 ∷ 99 ∷ [])
    ∷ []

unfoldable pub is_one_of : Text → List Text → Bool
unfolding same_text
is_one_of t [] = false
is_one_of t (k ∷ r) = same_text k t || is_one_of t r

abbrev pub pair_ok : Text → Option Text → Bool
pair_ok key none = false
pair_ok key (some value) =
    not (length key == 0)
    && leb (length key) 32
    && all_of is_key_byte key
    && all_of is_value_byte value
    && not (is_one_of key own_keys)

-- `rk_kv_ok`; the `=` is 61.
unfoldable pub kv_ok : Text → Bool
unfolding all_of is_one_of until past
kv_ok kv = pair_ok (until 61 kv) (past 61 kv)

-- The key stands here, and its `=`.
unfoldable pub has_key : Text → Text → Bool
has_key [] p = starts_with 61 p
has_key (c ∷ k) [] = false
has_key (c ∷ k) (b ∷ r) = (b == c) && has_key k r

abbrev pub but_last : Text → Text
but_last [] = []
but_last (b ∷ []) = []
but_last (b ∷ c ∷ r) = b ∷ but_last (c ∷ r)

-- The pair is taken out; where nothing follows, the separator before it goes too.
abbrev pub cut_pair : (Text → Text → Text) → Text → Option Text → Text
cut_pair k pre none = but_last pre
cut_pair k pre (some []) = but_last pre
cut_pair k pre (some (b ∷ r)) = k pre (b ∷ r)

abbrev pub keep_pair : (Text → Text → Text) → Text → Text → Option Text → Text
keep_pair k pre pair none = pre ++ pair
keep_pair k pre pair (some rest) = k (pre ++ (pair ++ 32 ∷ [])) rest

-- The loop of `rk_attr_set`: `pre` is before the pointer, `p` behind it. A round goes past a byte at
-- least.
unfoldable pub drop_key : ℕ → Text → Text → Text → Text
unfolding has_key past until
drop_key fuel key pre [] = pre
drop_key zero key pre (b ∷ r) = pre ++ b ∷ r
drop_key (suc fuel) key pre (b ∷ r) =
    let taken = cut_pair (drop_key fuel key) pre (past 32 (b ∷ r)) in
    let kept = keep_pair (drop_key fuel key) pre (until 32 (b ∷ r)) (past 32 (b ∷ r)) in
    if has_key key (b ∷ r) then taken else kept

abbrev pub add_pair : Text → Text → Text
add_pair [] kv = kv
add_pair (b ∷ r) kv = (b ∷ r) ++ 32 ∷ kv

-- `rk_attr_set`.
unfoldable pub attr_set : Text → Text → Error ⊎ Text
unfolding drop_key until
attr_set attrs kv =
    let kept = drop_key (length attrs) (until 61 kv) [] attrs in
    if leb attrs_size (length (add_pair kept kv)) then inl too_big else inr (add_pair kept kv)

-- `strsep` at the spaces.
abbrev pub onto_first : ℕ → List Text → List Text
onto_first b [] = (b ∷ []) ∷ []
onto_first b (t ∷ ts) = (b ∷ t) ∷ ts

unfoldable pub tokens : Text → List Text
tokens [] = [] ∷ []
tokens (b ∷ r) = let rest = tokens r in if b == 32 then [] ∷ rest else onto_first b rest

abbrev pub and_go_on : (Text → Error ⊎ Text) → Error ⊎ Text → Error ⊎ Text
and_go_on k (inl e) = inl e
and_go_on k (inr attrs) = k attrs

unfoldable pub apply_tokens : List Text → Text → Error ⊎ Text
unfolding kv_ok attr_set
apply_tokens [] attrs = inr attrs
apply_tokens ([] ∷ ts) attrs = apply_tokens ts attrs
apply_tokens ((b ∷ r) ∷ ts) attrs =
    let rest = and_go_on (apply_tokens ts) (attr_set attrs (b ∷ r)) in
    if kv_ok (b ∷ r) then rest else inl invalid

-- `rk_attrs_apply`: the attributes that it leaves, where it returns 0. `mem` says that the copy could
-- be made.
unfoldable pub attrs_apply : Bool → Text → Text → Error ⊎ Text
unfolding apply_tokens tokens
attrs_apply mem attrs [] = inr attrs
attrs_apply mem attrs (b ∷ r) = if mem then apply_tokens (tokens (b ∷ r)) attrs else inl no_memory
