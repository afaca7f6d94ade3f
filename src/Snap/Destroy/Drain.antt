-- ===== src/Snap/Destroy/Drain.antt =====
-- The loop over the rows of the snapshot that goes.
use md_kmec.Base.{
  ℕ, ◌+◌, ◌<◌, ◌≡◌, ◌≢◌, refl, sym, ap, ◌∙◌, true, false, Option, none, some, [], ◌∷◌, ◌==◌,
  if◌then◌else◌, Xarray, xa_load, IsSortedFrom, xa_load_below, xa_load-store, store-IsSortedFrom,
  update, arith, Bool-cases, inl, inr,
}
use md_kmec.Snap.Rmap.{own_snap, own_free, rmap_get-rmap_put}
use md_kmec.Snap.State.{Sn, SnapOne, owner_of, snap_slots, lacks, rmap_set}
use md_kmec.Snap.Apply.{drain, hand_down, release_row, keep_row}
use md_kmec.Snap.Owned.{IsHeld}

owner-hand_down :
    (o : SnapOne) (row phys : ℕ) (sn : Sn) (q : ℕ)
    → o.slot < snap_slots
    → owner_of (hand_down o row phys sn) q
      ≡ (if phys == q then (own_snap o.slot, row) else owner_of sn q)
unfolding hand_down rmap_set
owner-hand_down o row phys sn q small =
    ground (arith, rmap_get-rmap_put sn.origin_rows sn.rmap phys row (own_snap o.slot) q)

owner-release_row :
    (phys : ℕ) (sn : Sn) (q : ℕ)
    → owner_of (release_row phys sn) q ≡ (if phys == q then (own_free, 0) else owner_of sn q)
unfolding release_row rmap_set
owner-release_row phys sn q =
    ground (arith, rmap_get-rmap_put sn.origin_rows sn.rmap phys 0 own_free q)

-- The state of the loop: `es` is what is left of the snapshot in slot `s`.
pub record IsLeft (s lo : ℕ) (es : Xarray ℕ) (sn : Sn) : Type 0 where
  pub sorted : IsSortedFrom lo es
  pub owned :
      (row phys : ℕ)
      → xa_load es row ≡ some phys
      → (row < sn.origin_rows) × (phys < sn.phys_rows) × (owner_of sn phys ≡ (own_snap s, row))
  pub idle : (phys : ℕ) → sn.used phys ≡ false → (owner_of sn phys).0 ≡ own_free

-- The next older snapshot, if there is one, is in order, and it is another one.
abbrev pub HeirHeld : ℕ → Option SnapOne → Sn → Type 0
HeirHeld s none sn = Unit
HeirHeld s (some o) sn = (o.slot ≢ s) × IsHeld sn.origin_rows sn.phys_rows (owner_of sn) sn.slots o

module _ (s lo row phys : ℕ) (es : Xarray ℕ) (sn : Sn) (w : IsLeft s lo ((row, phys) ∷ es) sn)
    (small : s < snap_slots) where
  -- The first entry is the only one of its row.
  first_owned :
      (row < sn.origin_rows) × (phys < sn.phys_rows) × (owner_of sn phys ≡ (own_snap s, row))
  unfolding xa_load
  first_owned = w.owned row phys (ground arith)

  first_alone : xa_load es row ≡ none
  unfolding IsSortedFrom
  first_alone = xa_load_below (row + 1) es row w.sorted.1 (omega arith)

  -- The rows of the other entries are other rows.
  rest_owned :
      (r q : ℕ)
      → xa_load es r ≡ some q
      → (r < sn.origin_rows) × (q < sn.phys_rows) × (owner_of sn q ≡ (own_snap s, r)) × (phys ≢ q)
  unfolding xa_load
  rest_owned r q e =
      let other : row ≢ r = λ same. cc (sym first_alone ∙ ap (xa_load es) same ∙ e) in
      let here = w.owned r q (ground (arith, e, other)) in
      (
        here.0,
        here.1,
        here.2,
        λ same. other (ap (λ p. p.1) (sym first_owned.2 ∙ ap (owner_of sn) same ∙ here.2)),
      )

  released_rest :
      (r q : ℕ)
      → xa_load es r ≡ some q
      → (r < sn.origin_rows)
        × (q < sn.phys_rows)
        × (owner_of (release_row phys sn) q ≡ (own_snap s, r))
  released_rest r q e =
      let (lt, fits, owned, other) = rest_owned r q e in
      (lt, fits, ground (arith, owner-release_row phys sn q, owned, other))

  released_idle :
      (q : ℕ)
      → update sn.used phys false q ≡ false
      → (owner_of (release_row phys sn) q).0 ≡ own_free
  released_idle q e = ground (arith, e, owner-release_row phys sn q, w.idle q)

  pub release_row-IsLeft : IsLeft s (row + 1) es (release_row phys sn)
  unfolding release_row rmap_set IsSortedFrom
  release_row-IsLeft = record { sorted = w.sorted.1; owned = released_rest; idle = released_idle }

  -- A snapshot that owns nothing in slot `s` keeps its rows.
  pub IsHeld-release_row :
      (h : SnapOne)
      → h.slot ≢ s
      → IsHeld sn.origin_rows sn.phys_rows (owner_of sn) sn.slots h
      → IsHeld sn.origin_rows sn.phys_rows (owner_of (release_row phys sn)) sn.slots h
  IsHeld-release_row h other i = record {
    small = i.small;
    taken = i.taken;
    sorted = i.sorted;
    copies = λ r q e.
        let (lt, fits, owned) = i.copies r q e in
        (
          lt,
          fits,
          ground (
            arith,
            owner-release_row phys sn q,
            owned,
            other,
            ap (owner_of sn) {x = phys} {y = q},
            first_owned.2,
          ),
        );
  }

module _ (s lo row phys : ℕ) (es : Xarray ℕ) (sn : Sn) (o : SnapOne)
    (w : IsLeft s lo ((row, phys) ∷ es) sn) (small : s < snap_slots) (other : o.slot ≢ s)
    (held : IsHeld sn.origin_rows sn.phys_rows (owner_of sn) sn.slots o) where
  handed_rest :
      (r q : ℕ)
      → xa_load es r ≡ some q
      → (r < sn.origin_rows)
        × (q < sn.phys_rows)
        × (owner_of (hand_down o row phys sn) q ≡ (own_snap s, r))
  handed_rest r q e =
      let (lt, fits, owned, apart) = rest_owned s lo row phys es sn w small r q e in
      (lt, fits, ground (arith, owner-hand_down o row phys sn q held.small, owned, apart))

  handed_idle : (q : ℕ) → sn.used q ≡ false → (owner_of (hand_down o row phys sn) q).0 ≡ own_free
  handed_idle q e =
      let here = first_owned s lo row phys es sn w small in
      let apart : phys ≢ q = λ same. absurd (
        omega (arith, small, ap (λ p. p.0) here.2, ap (λ t. (owner_of sn t).0) same, w.idle q e)) in
      ground (arith, owner-hand_down o row phys sn q held.small, w.idle q e, apart)

  pub hand_down-IsLeft : IsLeft s (row + 1) es (hand_down o row phys sn)
  unfolding hand_down rmap_set IsSortedFrom
  hand_down-IsLeft = record { sorted = w.sorted.1; owned = handed_rest; idle = handed_idle }

  -- The heir has the row.
  pub IsHeld-hand_down :
      lacks (some o) row ≡ true
      → IsHeld sn.origin_rows sn.phys_rows
          (owner_of (hand_down o row phys sn))
          sn.slots
          (keep_row row phys o)
  unfolding keep_row
  IsHeld-hand_down bare = record {
    small = held.small;
    taken = held.taken;
    sorted = store-IsSortedFrom 0 o.exc row phys held.sorted (omega arith);
    copies = λ r q e. ground (
      arith,
      e,
      xa_load-store o.exc row r phys,
      held.copies r q,
      owner-hand_down o row phys sn q held.small,
      first_owned s lo row phys es sn w small,
      other,
      ap (owner_of sn) {x = phys} {y = q},
    );
  }

-- What the loop leaves: the heir is in order, no idle row has an owner, and rows of other owners are
-- as they were.
pub record IsDrained (s : ℕ) (before : Sn) (heir : Option SnapOne) (sn : Sn) : Type 0 where
  pub heir_held : HeirHeld s heir sn
  pub idle : (phys : ℕ) → sn.used phys ≡ false → (owner_of sn phys).0 ≡ own_free
  pub others :
      (phys : ℕ) → (owner_of before phys).0 ≢ own_snap s → owner_of sn phys ≡ owner_of before phys
  pub same_rows : sn.origin_rows ≡ before.origin_rows
  pub same_phys : sn.phys_rows ≡ before.phys_rows
  pub same_slots : sn.slots ≡ before.slots
  pub same_map : sn.odir ≡ before.odir
  pub same_count : sn.nsnaps ≡ before.nsnaps

owner-ne :
    (s : ℕ) (sn : Sn) (row phys q : ℕ)
    → owner_of sn phys ≡ (own_snap s, row)
    → (owner_of sn q).0 ≢ own_snap s
    → phys ≢ q
owner-ne s sn row phys q e other same =
    other (ap (λ t. (owner_of sn t).0) (sym same) ∙ ap (λ p. p.0) e)

after-release_row :
    (s row phys : ℕ) (sn later : Sn) (heir : Option SnapOne)
    → owner_of sn phys ≡ (own_snap s, row)
    → IsDrained s (release_row phys sn) heir later
    → IsDrained s sn heir later
unfolding release_row rmap_set
after-release_row s row phys sn later heir e d =
    let step : (q : ℕ)
        → (owner_of sn q).0 ≢ own_snap s
        → owner_of (release_row phys sn) q ≡ owner_of sn q =
      λ q other. ground (arith, owner-release_row phys sn q, owner-ne s sn row phys q e other) in
    record {
      heir_held = d.heir_held;
      idle = d.idle;
      others = λ q other.
          d.others q (λ t. other (ap (λ p. p.0) (sym (step q other)) ∙ t)) ∙ step q other;
      same_rows = d.same_rows;
      same_phys = d.same_phys;
      same_slots = d.same_slots;
      same_map = d.same_map;
      same_count = d.same_count;
    }

after-hand_down :
    (s row phys : ℕ) (sn later : Sn) (o : SnapOne) (heir : Option SnapOne)
    → o.slot < snap_slots
    → owner_of sn phys ≡ (own_snap s, row)
    → IsDrained s (hand_down o row phys sn) heir later
    → IsDrained s sn heir later
unfolding hand_down rmap_set
after-hand_down s row phys sn later o heir small e d =
    let step : (q : ℕ)
        → (owner_of sn q).0 ≢ own_snap s
        → owner_of (hand_down o row phys sn) q ≡ owner_of sn q =
      λ q other.
        ground (arith, owner-hand_down o row phys sn q small, owner-ne s sn row phys q e other) in
    record {
      heir_held = d.heir_held;
      idle = d.idle;
      others = λ q other.
          d.others q (λ t. other (ap (λ p. p.0) (sym (step q other)) ∙ t)) ∙ step q other;
      same_rows = d.same_rows;
      same_phys = d.same_phys;
      same_slots = d.same_slots;
      same_map = d.same_map;
      same_count = d.same_count;
    }

heir-release_row :
    (s lo row phys : ℕ) (es : Xarray ℕ) (sn : Sn) (o : SnapOne)
    → IsLeft s lo ((row, phys) ∷ es) sn
    → s < snap_slots
    → HeirHeld s (some o) sn
    → HeirHeld s (some o) (release_row phys sn)
unfolding release_row rmap_set
heir-release_row s lo row phys es sn o w small (other, held) =
    (other, IsHeld-release_row s lo row phys es sn w small o other held)

heir-hand_down :
    (s lo row phys : ℕ) (es : Xarray ℕ) (sn : Sn) (o : SnapOne)
    → IsLeft s lo ((row, phys) ∷ es) sn
    → s < snap_slots
    → HeirHeld s (some o) sn
    → lacks (some o) row ≡ true
    → HeirHeld s (some (keep_row row phys o)) (hand_down o row phys sn)
unfolding hand_down rmap_set keep_row
heir-hand_down s lo row phys es sn o w small (other, held) bare =
    (other, IsHeld-hand_down s lo row phys es sn o w small other held bare)

pub drain-IsDrained :
    (s : ℕ) (heir : Option SnapOne) (lo : ℕ) (es : Xarray ℕ) (sn : Sn) (moved freed : ℕ)
    → s < snap_slots
    → IsLeft s lo es sn
    → HeirHeld s heir sn
    → let r = drain heir es sn moved freed in IsDrained s sn r.0 r.1
unfolding drain
drain-IsDrained s heir lo [] sn moved freed small w h = record {
  heir_held = h;
  idle = w.idle;
  others = λ phys e. refl;
  same_rows = refl;
  same_phys = refl;
  same_slots = refl;
  same_map = refl;
  same_count = refl;
}
drain-IsDrained s none lo ((row, phys) ∷ es) sn moved freed small w h =
    after-release_row s row phys sn _ _ (first_owned s lo row phys es sn w small).2 (
      drain-IsDrained s none (row + 1) es (release_row phys sn) moved (freed + 1) small
        (release_row-IsLeft s lo row phys es sn w small) tt)
drain-IsDrained s (some o) lo ((row, phys) ∷ es) sn moved freed small w (other, held) =
    let owned = (first_owned s lo row phys es sn w small).2 in
    elim (Bool-cases (lacks (some o) row)) [
      | inl e ↦ rw e (
          after-hand_down s row phys sn _ o _ held.small owned (
            drain-IsDrained s (some (keep_row row phys o)) (row + 1) es (hand_down o row phys sn)
              (moved + 1) freed small (hand_down-IsLeft s lo row phys es sn o w small other held)
              (heir-hand_down s lo row phys es sn o w small (other, held) e)))
      | inr e ↦ rw e (
          after-release_row s row phys sn _ _ owned (
            drain-IsDrained s (some o) (row + 1) es (release_row phys sn) moved (freed + 1) small
              (release_row-IsLeft s lo row phys es sn w small)
              (heir-release_row s lo row phys es sn o w small (other, held))))
    ]
