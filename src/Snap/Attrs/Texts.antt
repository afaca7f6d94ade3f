-- ===== src/Snap/Attrs/Texts.antt =====
-- What `rk_name_ok` and `rk_attrs_apply` of km/raid_km-snap.c let through is a text that fits its
-- buffer.
use md_kmec.Base.{
  ℕ, zero, suc, ◌<◌, ◌≤◌, ◌≡◌, refl, sym, ap, subst, Bool, true, false, not, ◌&&◌, Option, none,
  some, List, [], ◌∷◌, ◌++◌, length, leb, ◌==◌, if◌then◌else◌, ◌⊎◌, inl, inr, arith, Bool-cases,
  if_rule, Option-cases, AllNonzero, ==_iff,
}
use md_kmec.Snap.State.{Text, name_size, attrs_size}
use md_kmec.Snap.Record.RoundTrip.{IsText}
use md_kmec.Snap.Attrs.{
  Error, invalid, no_memory, too_big, is_name_byte, is_key_byte, is_value_byte, all_of, name_ok,
  until, past, kv_ok, own_keys, is_one_of, has_key, but_last, cut_pair, keep_pair, drop_key,
  add_pair, attr_set, tokens, and_go_on, apply_tokens, attrs_apply, starts_with,
}

both : (a b : Bool) → (a && b) ≡ true → (a ≡ true) × (b ≡ true)
both true b h = (refl, h)
both false b h = absurd (cc h)

all_of-AllNonzero : (f : ℕ → Bool) (t : Text) → f 0 ≡ false → all_of f t ≡ true → AllNonzero t
unfolding all_of
all_of-AllNonzero f [] z h = tt
all_of-AllNonzero f (b ∷ r) z h =
    let (here, rest) = both (f b) (all_of f r) h in
    ((λ q. let w : f b ≡ f 0 = ap f q in absurd (cc (w, here, z))), all_of-AllNonzero f r z rest)

pub name_ok-IsText : (name : Text) → name_ok name ≡ true → IsText name_size name
unfolding name_ok
name_ok-IsText name h =
    let (h1, all) = both _ (all_of is_name_byte name) h in
    let (h2, no_dash) = both _ (not (starts_with 45 name)) h1 in
    let (h3, few) = both _ (not (leb name_size (length name))) h2 in
    record { short = ground (arith, few); plain = all_of-AllNonzero is_name_byte name refl all }

AllNonzero-append : (a b : Text) → AllNonzero a → AllNonzero b → AllNonzero (a ++ b)
AllNonzero-append [] b ha hb = hb
AllNonzero-append (c ∷ r) b (hc, hr) hb = (hc, AllNonzero-append r b hr hb)

until-AllNonzero : (c : ℕ) (t : Text) → AllNonzero t → AllNonzero (until c t)
unfolding until
until-AllNonzero c [] h = tt
until-AllNonzero c (b ∷ r) (hb, hr) =
    if_rule AllNonzero (b == c) (λ _. tt) (λ _. (hb, until-AllNonzero c r hr))

past-AllNonzero : (c : ℕ) (t rest : Text) → AllNonzero t → past c t ≡ some rest → AllNonzero rest
unfolding past
past-AllNonzero c [] rest h e = absurd (cc e)
past-AllNonzero c (b ∷ r) rest (hb, hr) e = elim (Bool-cases (b == c)) [
  | inl q ↦ let f = rw q at e in let same : r ≡ rest = cc f in subst AllNonzero same hr
  | inr q ↦ let f = rw q at e in past-AllNonzero c r rest hr f
]

but_last-AllNonzero : (t : Text) → AllNonzero t → AllNonzero (but_last t)
but_last-AllNonzero [] h = tt
but_last-AllNonzero (b ∷ []) h = tt
but_last-AllNonzero (b ∷ c ∷ r) (hb, hr) = (hb, but_last-AllNonzero (c ∷ r) hr)

-- What is behind the first space, if there is one.
abbrev AllAfter : Option Text → Type 0
AllAfter none = Unit
AllAfter (some rest) = AllNonzero rest

past-AllAfter : (c : ℕ) (t : Text) → AllNonzero t → AllAfter (past c t)
past-AllAfter c t h = elim (Option-cases (past c t)) [
  | inl e ↦ subst AllAfter (sym e) tt
  | inr (rest, e) ↦ subst AllAfter (sym e) (past-AllNonzero c t rest h e)
]

module _ (k : Text → Text → Text)
    (keeps : (pre p : Text) → AllNonzero pre → AllNonzero p → AllNonzero (k pre p)) where
  cut_pair-AllNonzero :
      (pre : Text) (o : Option Text) → AllNonzero pre → AllAfter o → AllNonzero (cut_pair k pre o)
  cut_pair-AllNonzero pre none h ho = but_last-AllNonzero pre h
  cut_pair-AllNonzero pre (some []) h ho = but_last-AllNonzero pre h
  cut_pair-AllNonzero pre (some (b ∷ r)) h ho = keeps pre (b ∷ r) h ho

  keep_pair-AllNonzero :
      (pre pair : Text) (o : Option Text)
      → AllNonzero pre
      → AllNonzero pair
      → AllAfter o
      → AllNonzero (keep_pair k pre pair o)
  keep_pair-AllNonzero pre pair none h hp ho = AllNonzero-append pre pair h hp
  keep_pair-AllNonzero pre pair (some rest) h hp ho =
      keeps (pre ++ (pair ++ 32 ∷ [])) rest
        (AllNonzero-append pre (pair ++ 32 ∷ []) h
          (AllNonzero-append pair (32 ∷ []) hp ((λ e. absurd (omega (arith, e))), tt)))
        ho

drop_key-AllNonzero :
    (fuel : ℕ) (key pre p : Text)
    → AllNonzero pre
    → AllNonzero p
    → AllNonzero (drop_key fuel key pre p)
unfolding drop_key
drop_key-AllNonzero fuel key pre [] h hp = h
drop_key-AllNonzero zero key pre (b ∷ r) h hp = AllNonzero-append pre (b ∷ r) h hp
drop_key-AllNonzero (suc fuel) key pre (b ∷ r) h hp =
    let ih = drop_key-AllNonzero fuel key in
    if_rule AllNonzero (has_key key (b ∷ r))
      (λ _.
        cut_pair-AllNonzero (drop_key fuel key) ih pre (past 32 (b ∷ r)) h
          (past-AllAfter 32 (b ∷ r) hp))
      (λ _.
        keep_pair-AllNonzero (drop_key fuel key) ih pre (until 32 (b ∷ r)) (past 32 (b ∷ r)) h
          (until-AllNonzero 32 (b ∷ r) hp) (past-AllAfter 32 (b ∷ r) hp))

past-length : (c : ℕ) (t rest : Text) → past c t ≡ some rest → length rest < length t
unfolding past
past-length c [] rest e = absurd (cc e)
past-length c (b ∷ r) rest e = elim (Bool-cases (b == c)) [
  | inl q ↦ let f = rw q at e in let same : r ≡ rest = cc f in omega (arith, ap length same)
  | inr q ↦ let f = rw q at e in omega (arith, past-length c r rest f)
]

module _ (k later : Text → Text → Text) (o : Option Text)
    (agree : (pre rest : Text) → o ≡ some rest → k pre rest ≡ later pre rest) where
  cut_pair_same : (pre : Text) → cut_pair k pre o ≡ cut_pair later pre o
  cut_pair_same pre = elim (Option-cases o) [
    | inl e ↦ rw e refl
    | inr ([], e) ↦ rw e refl
    | inr (b ∷ r, e) ↦ rw e (agree pre (b ∷ r) e)
  ]

  keep_pair_same : (pre pair : Text) → keep_pair k pre pair o ≡ keep_pair later pre pair o
  keep_pair_same pre pair = elim (Option-cases o) [
    | inl e ↦ rw e refl
    | inr (rest, e) ↦ rw e (agree (pre ++ (pair ++ 32 ∷ [])) rest e)
  ]

-- As many rounds as there are bytes are enough: one more changes nothing.
drop_key-enough :
    (fuel : ℕ) (key pre p : Text)
    → length p ≤ fuel
    → drop_key (suc fuel) key pre p ≡ drop_key fuel key pre p
unfolding drop_key
drop_key-enough fuel key pre [] h = refl
drop_key-enough zero key pre (b ∷ r) h = absurd (omega arith)
drop_key-enough (suc fuel) key pre (b ∷ r) h =
    let o = past 32 (b ∷ r) in
    let ih : (q rest : Text)
        → o ≡ some rest
        → drop_key (suc fuel) key q rest ≡ drop_key fuel key q rest =
      λ q rest e.
        drop_key-enough fuel key q rest (omega (arith, h, past-length 32 (b ∷ r) rest e)) in
    let taken = cut_pair_same (drop_key (suc fuel) key) (drop_key fuel key) o ih pre in
    let kept =
      keep_pair_same (drop_key (suc fuel) key) (drop_key fuel key) o ih pre (until 32 (b ∷ r)) in
    λ i. if has_key key (b ∷ r) then taken i else kept i

add_pair-AllNonzero : (a kv : Text) → AllNonzero a → AllNonzero kv → AllNonzero (add_pair a kv)
add_pair-AllNonzero [] kv h hk = hk
add_pair-AllNonzero (b ∷ r) kv h hk =
    AllNonzero-append (b ∷ r) (32 ∷ kv) h ((λ e. absurd (omega (arith, e))), hk)

-- The two sides of the first `=`.
around : (c : ℕ) (t rest : Text) → past c t ≡ some rest → t ≡ until c t ++ c ∷ rest
unfolding past until
around c [] rest e = absurd (cc e)
around c (b ∷ r) rest e = elim (Bool-cases (b == c)) [
  | inl q ↦
      let f = rw q at e in
      let same : r ≡ rest = cc f in
      let here : b ≡ c = (==_iff b c).0 q in rw q (λ i. here i ∷ same i)
  | inr q ↦ let f = rw q at e in rw q (ap (λ l. b ∷ l) (around c r rest f))
]

kv_ok-AllNonzero : (kv : Text) → kv_ok kv ≡ true → AllNonzero kv
unfolding kv_ok
kv_ok-AllNonzero kv h = elim (Option-cases (past 61 kv)) [
  | inl e ↦ let f = rw e at h in absurd (cc f)
  | inr (value, e) ↦
      let f = rw e at h in
      let key = until 61 kv in
      let (h1, not_own) = both _ (not (is_one_of key own_keys)) f in
      let (h2, values) = both _ (all_of is_value_byte value) h1 in
      let (h3, keys) = both _ (all_of is_key_byte key) h2 in
      subst AllNonzero (sym (around 61 kv value e)) (
        AllNonzero-append key (61 ∷ value) (all_of-AllNonzero is_key_byte key refl keys)
          ((λ q. absurd (omega (arith, q))), all_of-AllNonzero is_value_byte value refl values))
]

abbrev Fits : Error ⊎ Text → Type 0
Fits o = (attrs : Text) → o ≡ inr attrs → IsText attrs_size attrs

Fits-inl : (e : Error) → Fits (inl e)
Fits-inl e attrs q = absurd (cc q)

Fits-inr : (t : Text) → IsText attrs_size t → Fits (inr t)
Fits-inr t h attrs q = let same : t ≡ attrs = cc q in subst (IsText attrs_size) same h

attr_set-Fits :
    (attrs kv : Text) → IsText attrs_size attrs → kv_ok kv ≡ true → Fits (attr_set attrs kv)
unfolding attr_set
attr_set-Fits attrs kv h ok =
    let kept = drop_key (length attrs) (until 61 kv) [] attrs in
    let plain = drop_key-AllNonzero (length attrs) (until 61 kv) [] attrs tt h.plain in
    if_rule Fits (leb attrs_size (length (add_pair kept kv))) (λ _. Fits-inl too_big)
      (λ room. Fits-inr (add_pair kept kv) (record {
        short = ground (arith, room);
        plain = add_pair-AllNonzero kept kv plain (kv_ok-AllNonzero kv ok);
      }))

and_go_on-Fits :
    (k : Text → Error ⊎ Text) (o : Error ⊎ Text)
    → Fits o
    → ((t : Text) → IsText attrs_size t → Fits (k t))
    → Fits (and_go_on k o)
and_go_on-Fits k (inl e) h f = Fits-inl e
and_go_on-Fits k (inr t) h f = f t (h t refl)

apply_tokens-Fits :
    (ts : List Text) (attrs : Text) → IsText attrs_size attrs → Fits (apply_tokens ts attrs)
unfolding apply_tokens
apply_tokens-Fits [] attrs h = Fits-inr attrs h
apply_tokens-Fits ([] ∷ ts) attrs h = apply_tokens-Fits ts attrs h
apply_tokens-Fits ((b ∷ r) ∷ ts) attrs h =
    if_rule Fits (kv_ok (b ∷ r))
      (λ ok.
        and_go_on-Fits (apply_tokens ts) (attr_set attrs (b ∷ r)) (attr_set-Fits attrs (b ∷ r) h ok)
          (apply_tokens-Fits ts))
      (λ _. Fits-inl invalid)

-- Attributes that fit their buffer still fit it after `rk_attrs_apply`.
pub attrs_apply-IsText :
    (mem : Bool) (attrs args later : Text)
    → IsText attrs_size attrs
    → attrs_apply mem attrs args ≡ inr later
    → IsText attrs_size later
unfolding attrs_apply
attrs_apply-IsText mem attrs [] later h e = Fits-inr attrs h later e
attrs_apply-IsText mem attrs (b ∷ r) later h e =
    if_rule Fits mem (λ _. apply_tokens-Fits (tokens (b ∷ r)) attrs h) (λ _. Fits-inl no_memory)
      later e
