-- ===== src/Snap/Derive/Result.antt =====
-- What `rk_sn_derive` of km/raid_km-snapmeta.c makes of a table and a reverse map that were read.
use md_kmec.Base.{
  ℕ, ◌<◌, ◌≤◌, ◌≡◌, ◌≢◌, refl, subst, sym, ap, ◌∙◌, Bool, true, false, not, ◌||◌, none, some, List,
  [], ◌∷◌, ltb, leb, ◌==◌, if◌then◌else◌, if_rule, length, Xarray, xa_load, IsSortedFrom, arith,
  Option-cases, Bool-cases, inl, inr, ltb_iff,
}
use md_kmec.Snap.Origin.{IsDirectory, origin}
use md_kmec.Snap.Rmap.{own_origin, own_free, Rmap, rmap_get, default_owner}
use md_kmec.Snap.State.{Sn, SnapOne, owner_of, snap_slots}
use md_kmec.Snap.Owned.{AllHeld, AllDistinct, IsOwned}
use md_kmec.Snap.Derive.{
  Building, Built, derive_free, derive_origin, derive_copy, derive_entry, derive_entries,
  derive_start, derive_end, derive, all_moved, count_moved, slot_byte, is_stored, is_there,
}
use md_kmec.Snap.Derive.Loop.{IsLoaded, IsBuilding}
use md_kmec.Snap.Derive.Moved.{all_moved_lem}
use md_kmec.Snap.Derive.Sound.{entries_IsBuilding}

-- The snapshots of the table, which have no rows yet.
abbrev pub AllFresh : (ℕ → Bool) → List SnapOne → Type 0
AllFresh slots [] = Unit
AllFresh slots (g ∷ r) =
    ((g.slot < snap_slots) × (slots g.slot ≡ true) × (g.exc ≡ [])) × AllFresh slots r

nothing_sorted : (x : Xarray ℕ) → x ≡ [] → IsSortedFrom 0 x
unfolding IsSortedFrom
nothing_sorted x e = subst (IsSortedFrom 0) (sym e) tt

nothing_there : (x : Xarray ℕ) (row phys : ℕ) → x ≡ [] → xa_load x row ≢ some phys
unfolding xa_load
nothing_there x row phys e h = let f = rw e at h in cc f

fresh_held :
    (rows phys_rows : ℕ) (own : ℕ → ℕ × ℕ) (slots : ℕ → Bool) (chain : List SnapOne)
    → AllFresh slots chain
    → AllHeld rows phys_rows own slots chain
fresh_held rows phys_rows own slots [] h = tt
fresh_held rows phys_rows own slots (g ∷ r) ((small, taken, empty), h) = (
  record {
    small = small;
    taken = taken;
    sorted = nothing_sorted g.exc empty;
    copies = λ row phys e. absurd (nothing_there g.exc row phys empty e);
  },
  fresh_held rows phys_rows own slots r h,
)

-- The state before: the table and the reverse map are read, the origin map is the identity.
pub record IsRead (sn : Sn) : Type 0 where
  pub loaded : IsLoaded sn.phys_rows sn.rmap
  pub fits : sn.origin_rows ≤ sn.phys_rows
  pub directory : IsDirectory sn.origin_rows sn.odir
  pub plain : (row : ℕ) → origin sn.odir row ≡ row
  pub fresh : AllFresh sn.slots sn.snaps
  pub distinct : AllDistinct sn.snaps
  pub counted : sn.nsnaps ≡ length sn.snaps

owner-none :
    (sn : Sn) (p : ℕ)
    → xa_load sn.rmap p ≡ none
    → owner_of sn p ≡ (if ltb p sn.origin_rows then (own_origin, p) else (own_free, 0))
unfolding rmap_get default_owner
owner-none sn p e = rw e refl

start_freed :
    (sn : Sn) (p : ℕ)
    → (owner_of sn p).0 ≡ own_free
    → xa_load sn.rmap p ≡ none
    → ltb p sn.origin_rows ≡ false
start_freed sn p h n = elim (Bool-cases (ltb p sn.origin_rows)) [
  | inl t ↦
      let own : owner_of sn p ≡ (own_origin, p) = owner-none sn p n ∙ rw t refl in
      absurd (omega (arith, h, ap (λ o. o.0) own))
  | inr t ↦ t
]

start_IsBuilding : (sn : Sn) → IsRead sn → IsBuilding 0 sn.rmap (derive_start sn)
unfolding derive_start
start_IsBuilding sn w = record {
  sorted = w.loaded.sorted;
  rest = λ idx e h. h;
  directory = w.directory;
  home = λ row lt h. absurd (cc h);
  still = λ row lt h. w.plain row;
  held = fresh_held sn.origin_rows sn.phys_rows (owner_of sn) sn.slots sn.snaps w.fresh;
  distinct = w.distinct;
  idle = λ p h. elim (Option-cases (xa_load sn.rmap p)) [
    | inl n ↦ inl (ap (λ t. t.0) (owner-none sn p n) ∙ rw h refl)
    | inr (e, n) ↦ inr (e, n)
  ];
  counted = w.counted;
  loaded = w.loaded;
  chosen = λ p row e n. absurd (cc (sym e ∙ n));
  freed = λ p h n. start_freed sn p h n;
  left = λ row h. absurd (cc h);
}

module _ (b : Building) (lo : ℕ) (w : IsBuilding lo [] b) (fits : b.sn.origin_rows ≤ b.sn.phys_rows)
    (all : all_moved b.sn.origin_rows b.moved b.sn.rmap ≡ true) where
  home_end :
      (row : ℕ)
      → row < b.sn.origin_rows
      → (origin b.sn.odir row < b.sn.phys_rows)
        × (owner_of b.sn (origin b.sn.odir row) ≡ (own_origin, row))
  home_end row lt = elim (Bool-cases (b.moved row)) [
    | inl m ↦ w.home row lt m
    | inr m ↦
        let here = w.still row lt m in
        elim (Option-cases (xa_load b.sn.rmap row)) [
          | inl n ↦
              let inside = (ltb_iff row b.sn.origin_rows).1 lt in
              let own : owner_of b.sn row ≡ (own_origin, row) =
                owner-none b.sn row n ∙ rw inside refl in
              (omega (arith, here, lt, fits), ap (owner_of b.sn) here ∙ own)
          | inr (e, n) ↦
              absurd (cc (sym m ∙ all_moved_lem b.sn.origin_rows b.moved b.sn.rmap row e all lt n))
        ]
  ]

  idle_end : (p : ℕ) → b.sn.used p ≡ false → (owner_of b.sn p).0 ≡ own_free
  unfolding xa_load
  idle_end p h = elim (w.idle p h) [ inl q ↦ q | inr (e, q) ↦ absurd (cc q) ]

  -- The other direction: a row that is the origin's, by the reverse map, is where the origin map has
  -- it.
  home_only : (p row : ℕ) → owner_of b.sn p ≡ (own_origin, row) → origin b.sn.odir row ≡ p
  unfolding xa_load rmap_get default_owner
  home_only p row e = elim (Option-cases (xa_load b.sn.rmap p)) [
    | inl n ↦ elim (Bool-cases (ltb p b.sn.origin_rows)) [
      | inl lt ↦
          let own : owner_of b.sn p ≡ (own_origin, p) = owner-none b.sn p n ∙ rw lt refl in
          let same : p ≡ row = ap (λ t. t.1) (sym own ∙ e) in
          still_home p row n ((ltb_iff p b.sn.origin_rows).0 lt) same
      | inr ge ↦
          let own : owner_of b.sn p ≡ (own_free, 0) = owner-none b.sn p n ∙ rw ge refl in
          absurd (omega (arith, ap (λ t. t.0) (sym own ∙ e)))
    ]
    | inr (d, n) ↦
        let q : owner_of b.sn p ≡ d = rw n refl in (w.chosen p row (n ∙ ap some (sym q ∙ e)) refl).1
  ]
    where
      still_home :
          (p row : ℕ)
          → xa_load b.sn.rmap p ≡ none
          → p < b.sn.origin_rows
          → p ≡ row
          → origin b.sn.odir row ≡ p
      still_home p row n lt same = elim (Bool-cases (b.moved p)) [
        | inl m ↦ absurd (w.left p m n)
        | inr m ↦ ap (origin b.sn.odir) (sym same) ∙ w.still p lt m
      ]

  end-IsOwned : (n : ℕ) → IsOwned (record b.sn { redirected = n })
  end-IsOwned n = record {
    directory = w.directory;
    home = home_end;
    held = w.held;
    distinct = w.distinct;
    idle = idle_end;
    counted = w.counted;
  }

-- What a step leaves alone.
abbrev IsSame : Building → Built → Type 0
IsSame b o =
    (c : Building)
    → o ≡ some c
    → (c.sn.rmap ≡ b.sn.rmap)
      × (c.sn.origin_rows ≡ b.sn.origin_rows)
      × (c.sn.phys_rows ≡ b.sn.phys_rows)

IsSame-some :
    (b c : Building)
    → (c.sn.rmap ≡ b.sn.rmap)
      × (c.sn.origin_rows ≡ b.sn.origin_rows)
      × (c.sn.phys_rows ≡ b.sn.phys_rows)
    → IsSame b (some c)
IsSame-some b c h d e =
    let q : c ≡ d = cc e in
    subst
      (λ t.
        (t.sn.rmap ≡ b.sn.rmap)
        × (t.sn.origin_rows ≡ b.sn.origin_rows)
        × (t.sn.phys_rows ≡ b.sn.phys_rows))
      q h

IsSame-none : (b : Building) → IsSame b none
IsSame-none b c e = absurd (cc e)

entry-IsSame : (idx owner row : ℕ) (b : Building) → IsSame b (derive_entry idx owner row b)
unfolding derive_entry derive_free derive_origin derive_copy
entry-IsSame idx owner row b =
    if_rule (IsSame b) (owner == own_free)
      (λ _. IsSame-some b (derive_free idx b) (refl, refl, refl))
      (λ _.
        if_rule (IsSame b) (owner == own_origin)
          (λ _.
            if_rule (IsSame b)
              (leb b.sn.origin_rows row || b.moved row || not (is_stored b.sn.rmap row))
              (λ _. IsSame-none b)
              (λ _. IsSame-some b (derive_origin idx row b) (refl, refl, refl)))
          (λ _.
            if_rule (IsSame b)
              (not (is_there b.sn.snaps (slot_byte owner)) || leb b.sn.origin_rows row)
              (λ _. IsSame-none b)
              (λ _. IsSame-some b (derive_copy idx (slot_byte owner) row b) (refl, refl, refl))))

entries-IsSame : (es : Rmap) (b : Building) → IsSame b (derive_entries es b)
unfolding derive_entries
entries-IsSame [] b c e = IsSame-some b b (refl, refl, refl) c e
entries-IsSame ((idx, (owner, row)) ∷ r) b c e =
    elim (Option-cases (derive_entry idx owner row b)) [
      | inl n ↦ let f = rw n at e in absurd (cc f)
      | inr (d, n) ↦
          let f = rw n at e in
          let (m, o, p) = entries-IsSame r d c f in
          let (m', o', p') = entry-IsSame idx owner row b d n in (m ∙ m', o ∙ o', p ∙ p')
    ]

free_end :
    {hi : ℕ} (b : Building)
    → IsBuilding hi [] b
    → (p : ℕ) → (owner_of b.sn p).0 ≡ own_free
    → b.sn.used p ≡ false
unfolding xa_load
free_end b w p h = w.freed p h refl

-- If the derivation takes a reverse map, then what the maps that it makes hold is what the reverse map
-- says, and an origin row has no other physical row than the one that the origin map gives it: each
-- row that is the origin's, by the reverse map, is the one where the origin map has its row. A row
-- that nobody has is not in use, and the reverse map itself is left as it was read.
pub derive-IsOwned :
    (sn d : Sn)
    → IsRead sn
    → derive sn ≡ some d
    → IsOwned d
      × ((p row : ℕ) → owner_of d p ≡ (own_origin, row) → origin d.odir row ≡ p)
      × ((p : ℕ) → (owner_of d p).0 ≡ own_free → d.used p ≡ false)
      × (d.rmap ≡ sn.rmap)
unfolding derive derive_end
derive-IsOwned sn d w e = elim (Option-cases (derive_entries sn.rmap (derive_start sn))) [
  | inl n ↦ let f = rw n at e in absurd (cc f)
  | inr (b, n) ↦
      let f = rw n at e in
      let (hi, i) = entries_IsBuilding 0 sn.rmap (derive_start sn) b (start_IsBuilding sn w) n in
      let (m, o, p) = entries-IsSame sn.rmap (derive_start sn) b n in
      elim (Bool-cases (all_moved b.sn.origin_rows b.moved b.sn.rmap)) [
        | inl t ↦
            let g = rw t at f in
            let last = count_moved b.sn.origin_rows b.sn.odir in
            let q : record b.sn { redirected = last } ≡ d = cc g in
            subst
              (λ x.
                IsOwned x
                × ((p row : ℕ) → owner_of x p ≡ (own_origin, row) → origin x.odir row ≡ p)
                × ((p : ℕ) → (owner_of x p).0 ≡ own_free → x.used p ≡ false)
                × (x.rmap ≡ sn.rmap))
              q
              (
                end-IsOwned b hi i (omega (arith, w.fits, o, p)) t last,
                home_only b hi i (omega (arith, w.fits, o, p)) t,
                λ q own. free_end b i q own,
                m,
              )
        | inr t ↦ let g = rw t at f in absurd (cc g)
      ]
]
