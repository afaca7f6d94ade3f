-- ===== src/Snap/Derive/Sound.antt =====
-- What `rk_sn_derive` of km/raid_km-snapmeta.c makes of a reverse map that it takes.
use md_kmec.Base.{
  ℕ, ◌+◌, ◌<◌, ◌≡◌, ◌≢◌, ◌⊎◌, refl, subst, sym, ap, ◌∙◌, Bool, true, false, not, ◌||◌, none, some,
  [], ◌∷◌, leb, ◌==◌, if_rule, xa_load, xa_load_below, IsSortedFrom, update, arith, Option-cases,
  inl, inr, ==_iff, ℕ_discrete,
}
use md_kmec.Snap.Origin.{origin, put_origin, origin-put_origin, put_origin-IsDirectory}
use md_kmec.Snap.Rmap.{own_origin, own_snap, own_free, Rmap, rmap_get}
use md_kmec.Snap.State.{owner_of}
use md_kmec.Snap.Apply.{keep_row}
use md_kmec.Snap.Label.{distinct-on_slot, length-on_slot}
use md_kmec.Snap.Derive.{
  Building, Built, derive_free, derive_origin, derive_copy, derive_entry, derive_entries, slot_byte,
  is_stored,
}
use md_kmec.Snap.Derive.Loop.{IsBuilding, copies_held}

module _ (lo idx owner row : ℕ) (r : Rmap) (b : Building)
    (w : IsBuilding lo ((idx, (owner, row)) ∷ r) b) where
  entry_sorted : IsSortedFrom (idx + 1) r
  unfolding IsSortedFrom
  entry_sorted = w.sorted.1

  entry_owner : owner_of b.sn idx ≡ (owner, row)
  unfolding xa_load rmap_get
  entry_owner = rw (w.rest idx (owner, row) (ground arith)) refl

  entry_rest : (j : ℕ) (e : ℕ × ℕ) → xa_load r j ≡ some e → xa_load b.sn.rmap j ≡ some e
  unfolding xa_load
  entry_rest j e h =
      let other : idx ≢ j = λ q.
        cc
          (sym (xa_load_below (idx + 1) r idx entry_sorted (omega arith)) ∙ ap (xa_load r) q ∙ h) in
      w.rest j e (ground (arith, h, other))

  -- What is not in use is still to come, or is nobody's.
  entry_idle :
      (p : ℕ)
      → b.sn.used p ≡ false
      → idx ≢ p
      → ((owner_of b.sn p).0 ≡ own_free) ⊎ ((e : ℕ × ℕ) × (xa_load r p ≡ some e))
  unfolding xa_load
  entry_idle p h other = elim (w.idle p h) [
    | inl q ↦ inl q
    | inr (e, q) ↦ inr (e, ground (arith, q, other))
  ]

  idle_used :
      (p : ℕ)
      → update b.sn.used idx true p ≡ false
      → ((owner_of b.sn p).0 ≡ own_free) ⊎ ((e : ℕ × ℕ) × (xa_load r p ≡ some e))
  idle_used p h = elim (ℕ_discrete idx p) [
    | yes q ↦ absurd (ground (arith, h, q))
    | no q ↦ entry_idle p (ground (arith, h, q)) q
  ]

  idle_free :
      owner ≡ own_free
      → (p : ℕ) → update b.sn.used idx false p ≡ false
      → ((owner_of b.sn p).0 ≡ own_free) ⊎ ((e : ℕ × ℕ) × (xa_load r p ≡ some e))
  idle_free f p h = elim (ℕ_discrete idx p) [
    | yes q ↦ inl (ap (λ t. (owner_of b.sn t).0) (sym q) ∙ ap (λ t. t.0) entry_owner ∙ f)
    | no q ↦ entry_idle p (ground (arith, h, q)) q
  ]

  -- An entry of the origin that is not to come any more is this one, or was met before.
  entry_chosen :
      (p other : ℕ)
      → xa_load b.sn.rmap p ≡ some (own_origin, other)
      → xa_load r p ≡ none
      → ((idx ≡ p) × (owner ≡ own_origin) × (row ≡ other))
        ⊎ ((b.moved other ≡ true) × (origin b.sn.odir other ≡ p))
  unfolding xa_load
  entry_chosen p other h n = elim (ℕ_discrete idx p) [
    | yes q ↦
        let e : some (owner, row) ≡ some (own_origin, other) =
          sym (w.rest idx (owner, row) (ground arith)) ∙ ap (xa_load b.sn.rmap) q ∙ h in
        inl (q, cc e, cc e)
    | no q ↦ inr (w.chosen p other h (ground (arith, q, n)))
  ]

  other_chosen :
      owner ≢ own_origin
      → (p other : ℕ) → xa_load b.sn.rmap p ≡ some (own_origin, other)
      → xa_load r p ≡ none
      → (b.moved other ≡ true) × (origin b.sn.odir other ≡ p)
  other_chosen ne p other h n = elim (entry_chosen p other h n) [
    | inl (q, o, e) ↦ absurd (ne o)
    | inr c ↦ c
  ]

  -- Nobody's row, not to come any more, is this one or is free already.
  entry_freed :
      (p : ℕ)
      → (owner_of b.sn p).0 ≡ own_free
      → xa_load r p ≡ none
      → ((idx ≡ p) × (owner ≡ own_free)) ⊎ ((idx ≢ p) × (b.sn.used p ≡ false))
  unfolding xa_load
  entry_freed p h n = elim (ℕ_discrete idx p) [
    | yes q ↦
        let own = ap (λ t. t.0) (sym entry_owner) ∙ ap (λ t. (owner_of b.sn t).0) q ∙ h in
        inl (q, own)
    | no q ↦ inr (q, w.freed p h (ground (arith, q, n)))
  ]

  freed_used :
      owner ≢ own_free
      → (p : ℕ) → (owner_of b.sn p).0 ≡ own_free
      → xa_load r p ≡ none
      → update b.sn.used idx true p ≡ false
  freed_used ne p h n = elim (entry_freed p h n) [
    | inl (q, o) ↦ absurd (ne o)
    | inr (q, u) ↦ ground (arith, q, u)
  ]

  freed_free :
      (p : ℕ)
      → (owner_of b.sn p).0 ≡ own_free
      → xa_load r p ≡ none
      → update b.sn.used idx false p ≡ false
  freed_free p h n = elim (entry_freed p h n) [
    | inl (q, o) ↦ ground (arith, q)
    | inr (q, u) ↦ ground (arith, q, u)
  ]

  free_IsBuilding : owner ≡ own_free → IsBuilding (idx + 1) r (derive_free idx b)
  unfolding derive_free
  free_IsBuilding f = record {
    sorted = entry_sorted;
    rest = entry_rest;
    directory = w.directory;
    home = w.home;
    still = w.still;
    held = w.held;
    distinct = w.distinct;
    idle = idle_free f;
    freed = freed_free;
    counted = w.counted;
    loaded = w.loaded;
    chosen = other_chosen (λ o. absurd (omega (arith, f, o)));
    left = w.left;
  }

  copy_IsBuilding :
      (s : ℕ)
      → owner ≡ own_snap s
      → owner ≢ own_free
      → row < b.sn.origin_rows
      → idx < b.sn.phys_rows
      → IsBuilding (idx + 1) r (derive_copy idx s row b)
  unfolding derive_copy keep_row
  copy_IsBuilding s f not_free lt fits = record {
    sorted = entry_sorted;
    rest = entry_rest;
    directory = w.directory;
    home = w.home;
    still = w.still;
    held =
        copies_held b.sn.origin_rows b.sn.phys_rows (owner_of b.sn) b.sn.slots s row idx
          (entry_owner ∙ ap (λ t. (t, row)) f) lt fits b.sn.snaps w.held;
    distinct = distinct-on_slot s (keep_row row idx) (λ g. refl) b.sn.snaps w.distinct;
    idle = idle_used;
    freed = freed_used not_free;
    counted = w.counted ∙ sym (length-on_slot s (keep_row row idx) (λ g. refl) b.sn.snaps);
    loaded = w.loaded;
    chosen = other_chosen (λ o. absurd (omega (arith, f, o)));
    left = w.left;
  }

  home_derived :
      owner ≡ own_origin
      → row < b.sn.origin_rows
      → idx < b.sn.phys_rows
      → (other : ℕ) → other < b.sn.origin_rows
      → update b.moved row true other ≡ true
      → (origin (put_origin b.sn.odir row idx) other < b.sn.phys_rows)
        × (owner_of b.sn (origin (put_origin b.sn.odir row idx) other) ≡ (own_origin, other))
  home_derived f lt fits other lt' h =
      rw (origin-put_origin b.sn.origin_rows b.sn.odir row idx other w.directory lt)
        (elim (ℕ_discrete row other) [
          | yes q ↦ ground (arith, q, f, fits, entry_owner)
          | no q ↦ ground (arith, q, h, w.home other lt')
        ])

  still_derived :
      row < b.sn.origin_rows
      → (other : ℕ) → other < b.sn.origin_rows
      → update b.moved row true other ≡ false
      → origin (put_origin b.sn.odir row idx) other ≡ other
  still_derived lt other lt' h =
      rw (origin-put_origin b.sn.origin_rows b.sn.odir row idx other w.directory lt)
        (ground (arith, h, w.still other lt'))

  -- No row has been met twice as the origin's, so those met before stay.
  chosen_derived :
      row < b.sn.origin_rows
      → b.moved row ≡ false
      → (p other : ℕ) → xa_load b.sn.rmap p ≡ some (own_origin, other)
      → xa_load r p ≡ none
      → (update b.moved row true other ≡ true) × (origin (put_origin b.sn.odir row idx) other ≡ p)
  chosen_derived lt fresh p other h n =
      rw (origin-put_origin b.sn.origin_rows b.sn.odir row idx other w.directory lt)
        (elim (entry_chosen p other h n) [
          | inl (q, o, e) ↦ ground (arith, q, e)
          | inr (m, q) ↦
              let ne : row ≢ other = λ e. cc (sym fresh ∙ ap b.moved e ∙ m) in
              ground (arith, m, q, ne)
        ])

  left_derived :
      xa_load b.sn.rmap row ≢ none
      → (other : ℕ) → update b.moved row true other ≡ true
      → xa_load b.sn.rmap other ≢ none
  left_derived there other h = elim (ℕ_discrete row other) [
    | yes e ↦ subst (λ t. xa_load b.sn.rmap t ≢ none) e there
    | no e ↦ w.left other (ground (arith, h, e))
  ]

  origin_IsBuilding :
      owner ≡ own_origin
      → row < b.sn.origin_rows
      → idx < b.sn.phys_rows
      → b.moved row ≡ false
      → xa_load b.sn.rmap row ≢ none
      → IsBuilding (idx + 1) r (derive_origin idx row b)
  unfolding derive_origin
  origin_IsBuilding f lt fits fresh there = record {
    sorted = entry_sorted;
    rest = entry_rest;
    directory = put_origin-IsDirectory b.sn.origin_rows b.sn.odir row idx w.directory lt;
    home = home_derived f lt fits;
    still = still_derived lt;
    held = w.held;
    distinct = w.distinct;
    idle = idle_used;
    freed = freed_used (λ o. absurd (omega (arith, f, o)));
    counted = w.counted;
    loaded = w.loaded;
    chosen = chosen_derived lt fresh;
    left = left_derived there;
  }

  abbrev AllBuilding : Built → Type 0
  AllBuilding o = (c : Building) → o ≡ some c → IsBuilding (idx + 1) r c

  AllBuilding-some : (c : Building) → IsBuilding (idx + 1) r c → AllBuilding (some c)
  AllBuilding-some c i d e = let q : c ≡ d = cc e in subst (IsBuilding (idx + 1) r) q i

  AllBuilding-none : AllBuilding none
  AllBuilding-none c e = absurd (cc e)

  entry_inside : (idx < b.sn.phys_rows) × ((owner ≡ own_free) ⊎ ((0 < owner) × (owner < 258)))
  unfolding xa_load
  entry_inside = w.loaded.inside idx owner row (w.rest idx (owner, row) (ground arith))

  -- The byte of a snapshot's owner is its slot.
  entry_slot :
      (owner == own_free) ≡ false
      → (owner == own_origin) ≡ false
      → owner ≡ own_snap (slot_byte owner)
  entry_slot f o = elim entry_inside.1 [
    | inl q ↦ absurd (ground (arith, q, f))
    | inr (lo', hi) ↦ ground (arith, lo', hi, o)
  ]

  -- An entry that is taken keeps the state in order.
  entry_IsBuilding : AllBuilding (derive_entry idx owner row b)
  unfolding derive_entry
  entry_IsBuilding =
      if_rule AllBuilding (owner == own_free)
        (λ f. AllBuilding-some _ (free_IsBuilding ((==_iff owner own_free).0 f)))
        (λ f.
          if_rule AllBuilding (owner == own_origin)
            (λ o.
              if_rule AllBuilding _ (λ _. AllBuilding-none)
                (λ t. AllBuilding-some _ (
                  origin_IsBuilding ((==_iff owner own_origin).0 o)
                    (lt_of (or_left _ _ (or_left _ _ t))) entry_inside.0
                    (or_right _ _ (or_left _ _ t)) (there_of (or_right _ _ t)))))
            (λ o.
              if_rule AllBuilding _ (λ _. AllBuilding-none)
                (λ t. AllBuilding-some _ (
                  copy_IsBuilding (slot_byte owner) (entry_slot f o) (free_of f)
                    (lt_of (or_right _ _ t)) entry_inside.0))))
    where
      or_left : (x y : Bool) → (x || y) ≡ false → x ≡ false
      or_left true y e = absurd (cc e)
      or_left false y e = refl

      or_right : (x y : Bool) → (x || y) ≡ false → y ≡ false
      or_right true y e = absurd (cc e)
      or_right false y e = e

      there_of : not (is_stored b.sn.rmap row) ≡ false → xa_load b.sn.rmap row ≢ none
      there_of e n =
          let gone : not (is_stored b.sn.rmap row) ≡ true =
            ap (λ o. not (elim o [ none ↦ false | some _ ↦ true ])) n in
          cc (sym e ∙ gone)

      free_of : (owner == own_free) ≡ false → owner ≢ own_free
      free_of e q = cc (sym e ∙ (==_iff owner own_free).1 q)

      lt_of : leb b.sn.origin_rows row ≡ false → row < b.sn.origin_rows
      lt_of e = ground (arith, e)

pub entries_IsBuilding :
    (lo : ℕ) (es : Rmap) (b c : Building)
    → IsBuilding lo es b
    → derive_entries es b ≡ some c
    → (hi : ℕ) × IsBuilding hi [] c
unfolding derive_entries
entries_IsBuilding lo [] b c w e = let q : b ≡ c = cc e in (lo, subst (IsBuilding lo []) q w)
entries_IsBuilding lo ((idx, (owner, row)) ∷ r) b c w e =
    elim (Option-cases (derive_entry idx owner row b)) [
      | inl n ↦ let f = rw n at e in absurd (cc f)
      | inr (d, n) ↦
          let f = rw n at e in
          entries_IsBuilding (idx + 1) r d c (entry_IsBuilding lo idx owner row r b w d n) f
    ]
