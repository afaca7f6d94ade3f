-- ===== src/Snap/Redirect/Owners.antt =====
-- The ownership invariant across a copy-on-write of `rk_snap_apply` in km/raid_km-snap.c.
use md_kmec.Base.{
  ℕ, suc, ◌<◌, ◌≡◌, ◌≢◌, refl, subst, sym, ap, ◌∙◌, Bool, true, false, some, List, [], ◌∷◌, length,
  xa_load-store, store-IsSortedFrom, update, arith, ℕ_discrete,
}
use md_kmec.Snap.Origin.{origin, put_origin, origin-put_origin, put_origin-IsDirectory}
use md_kmec.Snap.Rmap.{own_origin, own_free}
use md_kmec.Snap.State.{Sn, SnapOne, owner_of, snap_slots, newest, rmap_set}
use md_kmec.Snap.Apply.{apply_redirect, keep_row, on_newest}
use md_kmec.Snap.Owned.{IsHeld, AllHeld, AllElsewhere, AllDistinct, IsOwned}
use md_kmec.Snap.Redirect.{owner-redirect, IsRedirect, home-owned}

length-on_newest :
    (f : SnapOne → SnapOne) (chain : List SnapOne) → length (on_newest f chain) ≡ length chain
unfolding on_newest
length-on_newest f [] = refl
length-on_newest f (g ∷ []) = refl
length-on_newest f (g ∷ h ∷ r) = ap suc (length-on_newest f (h ∷ r))

module _ (f : SnapOne → SnapOne) (still : (g : SnapOne) → (f g).slot ≡ g.slot) where
  pub AllElsewhere-on_newest :
      (s : ℕ) (chain : List SnapOne) → AllElsewhere s chain → AllElsewhere s (on_newest f chain)
  unfolding on_newest
  AllElsewhere-on_newest s [] h = tt
  AllElsewhere-on_newest s (g ∷ []) (h, _) = (λ e. h (sym (still g) ∙ e), tt)
  AllElsewhere-on_newest s (g ∷ j ∷ r) (h, k) = (h, AllElsewhere-on_newest s (j ∷ r) k)

  pub AllDistinct-on_newest :
      (chain : List SnapOne) → AllDistinct chain → AllDistinct (on_newest f chain)
  unfolding on_newest
  AllDistinct-on_newest [] h = tt
  AllDistinct-on_newest (g ∷ []) h = (tt, tt)
  AllDistinct-on_newest (g ∷ j ∷ r) (h, k) =
      (AllElsewhere-on_newest g.slot (j ∷ r) h, AllDistinct-on_newest (j ∷ r) k)

-- Every snapshot keeps the invariant, and the newest has it after its change.
pub AllHeld-on_newest :
    (rows phys_rows : ℕ) (own after : ℕ → ℕ × ℕ) (slots later : ℕ → Bool) (f : SnapOne → SnapOne)
    (chain : List SnapOne)
    → ((g : SnapOne) → IsHeld rows phys_rows own slots g → IsHeld rows phys_rows after later g)
    → ((g : SnapOne)
        → newest chain ≡ some g
        → IsHeld rows phys_rows own slots g
        → IsHeld rows phys_rows after later (f g))
    → AllHeld rows phys_rows own slots chain
    → AllHeld rows phys_rows after later (on_newest f chain)
unfolding on_newest newest
AllHeld-on_newest rows phys_rows own after slots later f [] keep last h = tt
AllHeld-on_newest rows phys_rows own after slots later f (g ∷ []) keep last (h, _) =
    (last g refl h, tt)
AllHeld-on_newest rows phys_rows own after slots later f (g ∷ j ∷ r) keep last (h, k) =
    (keep g h, AllHeld-on_newest rows phys_rows own after slots later f (j ∷ r) keep last k)

module _ (sn : Sn) (g : SnapOne) (row new_phys : ℕ) (w : IsOwned sn)
    (ok : IsRedirect sn g row new_phys) (small : g.slot < snap_slots) where
  abbrev old_phys : ℕ
  old_phys = origin sn.odir row

  abbrev after : Sn
  after = apply_redirect g row old_phys new_phys sn

  abbrev own_after : ℕ → ℕ × ℕ
  own_after = owner_of after

  -- A row that somebody else owns keeps its owner.
  owner_kept :
      (phys : ℕ)
      → (owner_of sn phys).0 ≢ own_free
      → owner_of sn phys ≢ (own_origin, row)
      → own_after phys ≡ owner_of sn phys
  owner_kept phys owned other = ground (
    arith,
    owner-redirect g row old_phys new_phys sn phys small,
    ok.idle,
    (w.home row ok.inside).1,
    owned,
    other,
  )

  other-IsHeld :
      (h : SnapOne)
      → IsHeld sn.origin_rows sn.phys_rows (owner_of sn) sn.slots h
      → IsHeld sn.origin_rows sn.phys_rows own_after sn.slots h
  other-IsHeld h i = record {
    small = i.small;
    taken = i.taken;
    sorted = i.sorted;
    copies = λ r phys e.
        let (lt, fits, owned) = i.copies r phys e in
        (
          lt,
          fits,
          owner_kept phys (λ q. absurd (omega (arith, i.small, q, ap (λ p. p.0) owned)))
                (λ q. absurd (omega (arith, ap (λ p. p.0) q, ap (λ p. p.0) owned)))
              ∙ owned,
        );
  }

  newest-IsHeld :
      IsHeld sn.origin_rows sn.phys_rows (owner_of sn) sn.slots g
      → IsHeld sn.origin_rows sn.phys_rows own_after sn.slots (keep_row row old_phys g)
  unfolding keep_row
  newest-IsHeld i = record {
    small = i.small;
    taken = i.taken;
    sorted = store-IsSortedFrom 0 g.exc row old_phys i.sorted (omega arith);
    copies = λ r phys e. ground (
      arith,
      e,
      xa_load-store g.exc row r old_phys,
      (other-IsHeld g i).copies r phys,
      owner-redirect g row old_phys new_phys sn phys small,
      w.home row ok.inside,
      ok.inside,
      ok.idle,
    );
  }

  home_after :
      (other : ℕ)
      → other < sn.origin_rows
      → (origin (put_origin sn.odir row new_phys) other < sn.phys_rows)
        × (own_after (origin (put_origin sn.odir row new_phys) other) ≡ (own_origin, other))
  home_after other lt =
      rw (origin-put_origin sn.origin_rows sn.odir row new_phys other w.directory ok.inside)
        (elim (ℕ_discrete row other) [
          | yes e ↦
              ground (arith, e, ok.fits, owner-redirect g row old_phys new_phys sn new_phys small)
          | no e ↦ ground (
            arith,
            e,
            w.home other lt,
            owner_kept (origin sn.odir other) (home-owned sn other w lt).1
                (λ q. e (ap (λ p. p.1) (sym q ∙ (w.home other lt).1))),
          )
        ])

  idle_after :
      (phys : ℕ) → update sn.used new_phys true phys ≡ false → (own_after phys).0 ≡ own_free
  idle_after phys e = ground (
    arith,
    e,
    w.idle phys,
    owner-redirect g row old_phys new_phys sn phys small,
    ap (λ p. p.0) (w.home row ok.inside).1,
  )

  last-IsHeld :
      (h : SnapOne)
      → newest sn.snaps ≡ some h
      → IsHeld sn.origin_rows sn.phys_rows (owner_of sn) sn.slots h
      → IsHeld sn.origin_rows sn.phys_rows own_after sn.slots (keep_row row old_phys h)
  last-IsHeld h q i =
      let same : g ≡ h = cc (sym ok.last ∙ q) in
      subst (λ x. IsHeld sn.origin_rows sn.phys_rows own_after sn.slots (keep_row row old_phys x))
        same
        (newest-IsHeld
          (subst (IsHeld sn.origin_rows sn.phys_rows (owner_of sn) sn.slots) (sym same) i))

  -- A copy-on-write keeps the ownership of every row in order.
  pub redirect-IsOwned : IsOwned after
  unfolding apply_redirect rmap_set keep_row
  redirect-IsOwned = record {
    directory = put_origin-IsDirectory sn.origin_rows sn.odir row new_phys w.directory ok.inside;
    home = home_after;
    held =
        AllHeld-on_newest sn.origin_rows sn.phys_rows (owner_of sn) own_after sn.slots sn.slots
          (keep_row row old_phys) sn.snaps other-IsHeld last-IsHeld w.held;
    distinct = AllDistinct-on_newest (keep_row row old_phys) (λ _. refl) sn.snaps w.distinct;
    idle = idle_after;
    counted = w.counted ∙ sym (length-on_newest (keep_row row old_phys) sn.snaps);
  }
