-- ===== src/Snap/InPlace.antt =====
-- A write that goes to the origin's own row: `raidkm_snap_map_bio` of km/raid_km-snap.c lets it, where
-- the newest snapshot does not share the row.
use md_kmec.Base.{
  ℕ, ◌<◌, ◌≡◌, ◌≢◌, refl, sym, ap, ◌∙◌, Bool, true, false, none, some, List, [], ◌∷◌, xa_load,
  update, arith, Option-cases, inl, inr, ==_iff,
}
use md_kmec.Snap.Origin.{origin}
use md_kmec.Snap.Rmap.{own_origin, own_free}
use md_kmec.Snap.State.{Sn, SnapOne, owner_of, newest, lacks, shared}
use md_kmec.Snap.View.{resolve, frozen, frozen-cons, rows_of_same, view, write}
use md_kmec.Snap.Owned.{IsHeld, AllHeld, IsOwned, resolve-owned}
use md_kmec.Snap.Redirect.{miss, live_write, update_idle, home-owned}

lacks_lem : (g : SnapOne) (row : ℕ) → xa_load g.exc row ≡ none → lacks (some g) row ≡ true
lacks_lem g row e = rw (e, lacks) refl

copy-ne :
    (rows phys_rows : ℕ) (own : ℕ → ℕ × ℕ) (slots : ℕ → Bool) (g : SnapOne)
    (row other phys home : ℕ)
    → IsHeld rows phys_rows own slots g
    → xa_load g.exc other ≡ some phys
    → own home ≡ (own_origin, row)
    → phys ≢ home
copy-ne rows phys_rows own slots g row other phys home h e here q = absurd (
    omega
      (arith, ap (λ t. (own t).0) q, ap (λ p. p.0) here, ap (λ p. p.0) (h.copies other phys e).2))

-- A snapshot's rows are not the origin's row `row`, if the newest has a copy of it.
pub resolve-ne :
    (rows phys_rows : ℕ) (own : ℕ → ℕ × ℕ) (slots : ℕ → Bool) (base : ℕ → ℕ) (g : SnapOne)
    (chain : List SnapOne) (row other : ℕ)
    → AllHeld rows phys_rows own slots (g ∷ chain)
    → lacks (newest (g ∷ chain)) row ≡ false
    → own (base row) ≡ (own_origin, row)
    → own (base other) ≡ (own_origin, other)
    → resolve (g ∷ chain) base other ≢ base row
unfolding resolve newest
resolve-ne rows phys_rows own slots base g [] row other (h, _) covered here there =
    elim (Option-cases (xa_load g.exc other)) [
      | inl e ↦ rw e (λ q.
          let same : other ≡ row = ap (λ p. p.1) (sym there ∙ ap own q ∙ here) in
          let f = rw (sym same) at covered in cc (lacks_lem g other e, f))
      | inr (phys, e) ↦ rw e (copy-ne rows phys_rows own slots g row other phys (base row) h e here)
    ]
resolve-ne rows phys_rows own slots base g (j ∷ r) row other (h, k) covered here there =
    elim (Option-cases (xa_load g.exc other)) [
      | inl e ↦ rw e (resolve-ne rows phys_rows own slots base j r row other k covered here there)
      | inr (phys, e) ↦ rw e (copy-ne rows phys_rows own slots g row other phys (base row) h e here)
    ]

tail_covered :
    (g : SnapOne) (r : List SnapOne) (row : ℕ)
    → lacks (newest (g ∷ r)) row ≡ false
    → lacks (newest r) row ≡ false
unfolding newest
tail_covered g [] row h = refl
tail_covered g (j ∷ r) row h = h

-- Such a write shows in the origin and in no snapshot.
frozen-over {ℓ} :
    {A : Type ℓ} (rows phys_rows : ℕ) (own : ℕ → ℕ × ℕ) (slots : ℕ → Bool) (c : ℕ → A)
    (base : ℕ → ℕ) (chain : List SnapOne) (row : ℕ) (v : A)
    → AllHeld rows phys_rows own slots chain
    → lacks (newest chain) row ≡ false
    → own (base row) ≡ (own_origin, row)
    → ((other : ℕ) → other < rows → own (base other) ≡ (own_origin, other))
    → frozen rows (update c (base row) v) base chain ≡ frozen rows c base chain
unfolding frozen newest
frozen-over rows phys_rows own slots c base [] row v h covered here home = refl
frozen-over rows phys_rows own slots c base (g ∷ r) row v h covered here home =
    frozen-cons rows (update c (base row) v) c g.slot (resolve (g ∷ r) base) (resolve (g ∷ r) base)
      (λ other lt.
        rw
          (miss (base row) (resolve (g ∷ r) base other) (λ q.
            resolve-ne rows phys_rows own slots base g r row other h covered here (home other lt)
              (sym q)))
          refl)
      (frozen-over rows phys_rows own slots c base r row v h.1 (tail_covered g r row covered) here
        home)

-- A write to the origin's row, where the newest snapshot has its own copy or there is none.
pub view-over {ℓ} :
    {A : Type ℓ} (sn : Sn) (row : ℕ) (v : A) (c : ℕ → A)
    → IsOwned sn
    → row < sn.origin_rows
    → shared sn row ≡ false
    → view sn (update c (origin sn.odir row) v) ≡ write row v (view sn c)
unfolding view write shared
view-over sn row v c w lt unshared =
    let base = origin sn.odir in
    let here = (w.home row lt).1 in
    let live =
      live_write sn.origin_rows c (update c (base row) v) base base row v lt
        (rw ((==_iff (base row) (base row)).1 refl) refl)
        (λ other ne lt'.
          rw
            (miss (base row) (base other)
              (λ q. ne (ap (λ p. p.1) (sym here ∙ ap (owner_of sn) q ∙ (w.home other lt').1))))
            refl) in
    let kept =
      frozen-over sn.origin_rows sn.phys_rows (owner_of sn) sn.slots c base sn.snaps row v w.held
        unshared here (λ other lt'. (w.home other lt').1) in
    λ i. record { live = live i; kept = kept i }

module _ {ℓ} {A : Type ℓ} (sn : Sn) (phys : ℕ) (v : A) (c : ℕ → A) (w : IsOwned sn)
    (idle : (owner_of sn phys).0 ≡ own_free) where
  frozen-spill :
      (chain : List SnapOne)
      → AllHeld sn.origin_rows sn.phys_rows (owner_of sn) sn.slots chain
      → frozen sn.origin_rows (update c phys v) (origin sn.odir) chain
        ≡ frozen sn.origin_rows c (origin sn.odir) chain
  unfolding frozen
  frozen-spill [] h = refl
  frozen-spill (g ∷ r) h =
      let place = resolve (g ∷ r) (origin sn.odir) in
      frozen-cons sn.origin_rows (update c phys v) c g.slot place place
        (λ row lt.
          update_idle (owner_of sn) c phys v (place row) idle
            (resolve-owned sn.origin_rows sn.phys_rows (owner_of sn) sn.slots (origin sn.odir)
              (g ∷ r) row h lt (home-owned sn row w lt)).1)
        (frozen-spill r h.1)

  -- A write to a row that nobody owns shows nowhere.
  pub view-spill : view sn (update c phys v) ≡ view sn c
  unfolding view
  view-spill =
      let base = origin sn.odir in
      let live =
        rows_of_same sn.origin_rows (update c phys v) c base base (λ row lt.
          update_idle (owner_of sn) c phys v (base row) idle (home-owned sn row w lt).1) in
      let kept = frozen-spill sn.snaps w.held in λ i. record { live = live i; kept = kept i }
