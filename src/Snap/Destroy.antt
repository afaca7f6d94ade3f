-- ===== src/Snap/Destroy.antt =====
-- A snapshot goes, in `rk_snap_apply` of km/raid_km-snap.c: its rows go to the next older snapshot
-- where that one read through it, and are free elsewhere.
pub mod Drain
pub mod Heir
pub mod Chain
use md_kmec.Base.{
  ℕ, zero, suc, ◌+◌, ◌-◌, ◌<◌, ◌≡◌, ◌≢◌, refl, subst, sym, ap, ◌∙◌, Bool, true, false, Option, none,
  some, List, [], ◌∷◌, ◌++◌, length, ◌==◌, if◌then◌else◌, Xarray, xa_load, update, arith,
  Option-cases, Bool-cases, inl, inr, ==_iff,
}
use md_kmec.Snap.Origin.{origin, IsDirectory}
use md_kmec.Snap.Rmap.{own_origin, own_snap, own_free}
use md_kmec.Snap.State.{Sn, SnapOne, owner_of, snap_slots, newest}
use md_kmec.Snap.Apply.{apply_destroy, unlink, drain, on_newest, or_same}
use md_kmec.Snap.View.{resolve, frozen, frozen-append, rows_of, view, forget, without, Volume}
use md_kmec.Snap.Owned.{
  IsHeld, AllHeld, AllElsewhere, AllDistinct, IsOwned, AllHeld-parts, AllHeld-append,
  AllElsewhere-parts,
}
use md_kmec.Snap.Redirect.{miss}
use md_kmec.Snap.Redirect.Owners.{AllHeld-on_newest}
use md_kmec.Snap.Destroy.Drain.{IsLeft, HeirHeld, IsDrained, drain-IsDrained}
use md_kmec.Snap.Destroy.Heir.{Inherits, drain-Inherits, drain-none}
use md_kmec.Snap.Destroy.Chain.{
  IsCut, frozen-heir, without-frozen, distinct_left, length_left, others_elsewhere,
}

newest-some :
    (k : List SnapOne) (o : SnapOne)
    → newest k ≡ some o
    → (a : SnapOne) × (b : List SnapOne) × (k ≡ a ∷ b)
unfolding newest
newest-some [] o e = absurd (cc e)
newest-some (a ∷ b) o e = (a, b, refl)

newest-none : (k : List SnapOne) → newest k ≡ none → k ≡ []
unfolding newest
newest-none [] e = refl
newest-none (a ∷ []) e = absurd (cc e)
newest-none (a ∷ b ∷ k) e = let f = newest-none (b ∷ k) e in absurd (cc f)

heir_start :
    (s : ℕ) (sn : Sn) (k : List SnapOne)
    → AllHeld sn.origin_rows sn.phys_rows (owner_of sn) sn.slots k
    → AllElsewhere s k
    → HeirHeld s (newest k) sn
unfolding newest
heir_start s sn [] h e = tt
heir_start s sn (a ∷ []) (h, _) (e, _) = (e, h)
heir_start s sn (a ∷ b ∷ k) (_, h) (_, e) = heir_start s sn (b ∷ k) h e

kept_with {ℓ} :
    {A : Type ℓ} (rows : ℕ) (c : ℕ → A) (base : ℕ → ℕ) (s : ℕ) (older : List SnapOne) (g : SnapOne)
    (newer : List SnapOne) (o h : SnapOne)
    → g.slot ≡ s
    → AllElsewhere s older
    → newest older ≡ some o
    → Inherits o g.exc h
    → frozen rows c base (on_newest (λ _. h) older ++ newer)
      ≡ without s (frozen rows c base (older ++ g ∷ newer))
unfolding frozen resolve
kept_with rows c base s older g newer o h found first n i =
    let under = resolve (g ∷ newer) base in
    let show = rows_of rows c under in
    let rest = frozen rows c base newer in
    frozen-append rows c base (on_newest (λ _. h) older) newer
    ∙ ap (λ l. l ++ rest) (frozen-heir rows c older o h g (resolve newer base) n i)
    ∙ sym (without-frozen rows c under s older show rest first)
    ∙ ap (λ t. without s (frozen rows c under older ++ (t, show) ∷ rest)) (sym found)
    ∙ ap (without s) (sym (frozen-append rows c base older (g ∷ newer)))

kept_left {ℓ} :
    {A : Type ℓ} (rows : ℕ) (c : ℕ → A) (base : ℕ → ℕ) (s : ℕ) (older : List SnapOne) (g : SnapOne)
    (newer : List SnapOne) (heir : Option SnapOne)
    → g.slot ≡ s
    → AllElsewhere s older
    → ((o : SnapOne) → newest older ≡ some o → (h : SnapOne) × (heir ≡ some h) × Inherits o g.exc h)
    → frozen rows c base (on_newest (or_same heir) older ++ newer)
      ≡ without s (frozen rows c base (older ++ g ∷ newer))
unfolding frozen resolve without on_newest
kept_left rows c base s [] g newer heir found first inherit = rw ((==_iff g.slot s).1 found) refl
kept_left rows c base s (a ∷ b) g newer heir found first inherit =
    elim (Option-cases (newest (a ∷ b))) [
      | inl n ↦ let f = newest-none (a ∷ b) n in absurd (cc f)
      | inr (o, n) ↦
          let (h, q, i) = inherit o n in
          let shown = frozen-heir rows c (a ∷ b) o h g (resolve newer base) n i in
          ap (λ t. frozen rows c base (on_newest (or_same t) (a ∷ b) ++ newer)) q
          ∙ kept_with rows c base s (a ∷ b) g newer o h found first n i
    ]

module _ (sn : Sn) (s : ℕ) (older : List SnapOne) (g : SnapOne) (newer : List SnapOne)
    (w : IsOwned sn) (c : IsCut s sn.snaps (older, g, newer)) where
  abbrev drained : Option SnapOne × Sn × ℕ × ℕ
  drained = drain (newest older) g.exc sn 0 0

  chain_held : AllHeld sn.origin_rows sn.phys_rows (owner_of sn) sn.slots (older ++ g ∷ newer)
  chain_held = subst (AllHeld sn.origin_rows sn.phys_rows (owner_of sn) sn.slots) c.whole w.held

  g-IsHeld : IsHeld sn.origin_rows sn.phys_rows (owner_of sn) sn.slots g
  g-IsHeld =
      (AllHeld-parts sn.origin_rows sn.phys_rows (owner_of sn) sn.slots older (g ∷ newer)
        chain_held).1.0

  start-IsLeft : IsLeft g.slot 0 g.exc sn
  start-IsLeft = record { sorted = g-IsHeld.sorted; owned = g-IsHeld.copies; idle = w.idle }

  heir_held : HeirHeld g.slot (newest older) sn
  heir_held =
      heir_start g.slot sn older
        (AllHeld-parts sn.origin_rows sn.phys_rows (owner_of sn) sn.slots older (g ∷ newer)
          chain_held).0
        (subst (λ t. AllElsewhere t older) (sym c.found) c.first)

  drained_lem : IsDrained g.slot sn drained.0 drained.1
  drained_lem =
      drain-IsDrained g.slot (newest older) 0 g.exc sn 0 0 g-IsHeld.small start-IsLeft heir_held

  inherit :
      (o : SnapOne)
      → newest older ≡ some o
      → (h : SnapOne) × (drained.0 ≡ some h) × Inherits o g.exc h
  inherit o n =
      let (h, q, i) = drain-Inherits o g.exc sn 0 0 in
      (h, ap (λ t. (drain t g.exc sn 0 0).0) n ∙ q, i)

  -- A destroy takes one snapshot out of what is seen and changes nothing else.
  pub view-destroy {ℓ} :
      {A : Type ℓ} (content : ℕ → A)
      → view (apply_destroy g older newer sn).0 content ≡ forget s (view sn content)
  unfolding view forget apply_destroy unlink
  view-destroy content =
      let live : rows_of drained.1.origin_rows content (origin drained.1.odir)
          ≡ rows_of sn.origin_rows content (origin sn.odir) =
        λ i. rows_of (drained_lem.same_rows i) content (origin (drained_lem.same_map i)) in
      let chain = on_newest (or_same drained.0) older ++ newer in
      let moved : frozen drained.1.origin_rows content (origin drained.1.odir) chain
          ≡ frozen sn.origin_rows content (origin sn.odir) chain =
        λ i. frozen (drained_lem.same_rows i) content (origin (drained_lem.same_map i)) chain in
      let kept =
        moved
        ∙ kept_left sn.origin_rows content (origin sn.odir) s older g newer drained.0 c.found
            c.first inherit
        ∙ ap (λ l. without s (frozen sn.origin_rows content (origin sn.odir) l)) (sym c.whole) in
      λ i. record { live = live i; kept = kept i }

  abbrev own_after : ℕ → ℕ × ℕ
  own_after = owner_of drained.1

  abbrev slots_after : ℕ → Bool
  slots_after = update drained.1.slots g.slot false

  slot_kept : (t : ℕ) → t ≢ g.slot → slots_after t ≡ sn.slots t
  slot_kept t other = rw (miss g.slot t (λ e. other (sym e))) (ap (λ f. f t) drained_lem.same_slots)

  -- The other snapshots keep their rows.
  other-IsHeld :
      (h : SnapOne)
      → h.slot ≢ g.slot
      → IsHeld sn.origin_rows sn.phys_rows (owner_of sn) sn.slots h
      → IsHeld drained.1.origin_rows drained.1.phys_rows own_after slots_after h
  other-IsHeld h other i = record {
    small = i.small;
    taken = slot_kept h.slot other ∙ i.taken;
    sorted = i.sorted;
    copies = λ row phys e.
        let (lt, fits, owned) = i.copies row phys e in
        (
          omega (arith, lt, drained_lem.same_rows),
          omega (arith, fits, drained_lem.same_phys),
          drained_lem.others phys (λ q. other (omega (arith, q, ap (λ p. p.0) owned))) ∙ owned,
        );
  }

  heir_after :
      (h : SnapOne)
      → drained.0 ≡ some h
      → IsHeld drained.1.origin_rows drained.1.phys_rows own_after slots_after h
  heir_after h q =
      let (other, i) = subst (λ t. HeirHeld g.slot t drained.1) q drained_lem.heir_held in
      record {
        small = i.small;
        taken = slot_kept h.slot other ∙ sym (ap (λ f. f h.slot) drained_lem.same_slots) ∙ i.taken;
        sorted = i.sorted;
        copies = i.copies;
      }

  home_after :
      (row : ℕ)
      → row < drained.1.origin_rows
      → (origin drained.1.odir row < drained.1.phys_rows)
        × (own_after (origin drained.1.odir row) ≡ (own_origin, row))
  home_after row lt =
      let place = ap (λ m. origin m row) drained_lem.same_map in
      let (fits, owned) = w.home row (omega (arith, lt, drained_lem.same_rows)) in
      let kept =
        drained_lem.others (origin sn.odir row)
          (λ q. absurd (omega (arith, q, ap (λ p. p.0) owned))) in
      (omega (arith, place, fits, drained_lem.same_phys), ap own_after place ∙ kept ∙ owned)

  abbrev HeldAfter : List SnapOne → Type 0
  HeldAfter = AllHeld drained.1.origin_rows drained.1.phys_rows own_after slots_after

  held_newer :
      (k : List SnapOne)
      → AllHeld sn.origin_rows sn.phys_rows (owner_of sn) sn.slots k
      → AllElsewhere g.slot k
      → HeldAfter k
  held_newer [] h e = tt
  held_newer (a ∷ k) (ha, h) (ea, e) = (other-IsHeld a ea ha, held_newer k h e)

  held_older :
      (k : List SnapOne)
      → AllHeld sn.origin_rows sn.phys_rows (owner_of sn) sn.slots k
      → AllElsewhere g.slot k
      → ((o : SnapOne)
          → newest k ≡ some o
          → IsHeld drained.1.origin_rows drained.1.phys_rows own_after slots_after
              (or_same drained.0 o))
      → HeldAfter (on_newest (or_same drained.0) k)
  unfolding on_newest newest
  held_older [] h e last = tt
  held_older (a ∷ []) h e last = (last a refl, tt)
  held_older (a ∷ b ∷ k) (ha, h) (ea, e) last = (other-IsHeld a ea ha, held_older (b ∷ k) h e last)

  last-IsHeld :
      (o : SnapOne)
      → newest older ≡ some o
      → IsHeld drained.1.origin_rows drained.1.phys_rows own_after slots_after (or_same drained.0 o)
  last-IsHeld o n =
      let (h, q, i) = inherit o n in
      subst
        (λ t. IsHeld drained.1.origin_rows drained.1.phys_rows own_after slots_after (or_same t o))
        (sym q) (heir_after h q)

  last_slot : (o : SnapOne) → newest older ≡ some o → (or_same drained.0 o).slot ≡ o.slot
  last_slot o n = let (h, q, i) = inherit o n in ap (λ t. (or_same t o).slot) q ∙ i.0

  -- A destroy keeps the ownership of every row in order.
  pub destroy-IsOwned : IsOwned (apply_destroy g older newer sn).0
  unfolding apply_destroy unlink
  destroy-IsOwned =
      let distinct = subst AllDistinct c.whole w.distinct in
      let parts =
        AllHeld-parts sn.origin_rows sn.phys_rows (owner_of sn) sn.slots older (g ∷ newer)
          chain_held in
      let older_elsewhere = subst (λ t. AllElsewhere t older) (sym c.found) c.first in
      let rest =
        AllElsewhere-parts g.slot older newer
          (others_elsewhere older g newer distinct older_elsewhere) in
      record {
        directory = record {
          entries = rw (drained_lem.same_rows, drained_lem.same_map) w.directory.entries;
          whole = rw drained_lem.same_map w.directory.whole;
        };
        home = home_after;
        held =
            AllHeld-append drained.1.origin_rows drained.1.phys_rows own_after slots_after
              (on_newest (or_same drained.0) older) newer
              (held_older older parts.0 rest.0 last-IsHeld) (held_newer newer parts.1.1 rest.1);
        distinct = distinct_left (or_same drained.0) older g newer last_slot distinct;
        idle = drained_lem.idle;
        counted = omega (
          arith,
          drained_lem.same_count,
          w.counted,
          ap length c.whole,
          length_left (or_same drained.0) older g newer,
        );
      }
