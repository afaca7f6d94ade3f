-- ===== src/Snap/Owned.antt =====
-- The ownership invariant of km/raid_km_snap.h: every physical row belongs to the origin, to one
-- snapshot, or to nobody, and the reverse map says which.
use md_kmec.Base.{
  ℕ, ◌<◌, ◌≡◌, ◌≢◌, ap, Bool, true, false, some, List, [], ◌∷◌, ◌++◌, length, IsSortedFrom, xa_load,
  arith, Option-cases, inl, inr,
}
use md_kmec.Snap.Origin.{origin, IsDirectory}
use md_kmec.Snap.Rmap.{own_origin, own_snap, own_free}
use md_kmec.Snap.State.{Sn, SnapOne, owner_of, snap_slots}
use md_kmec.Snap.View.{resolve}

-- A snapshot's copies are of origin rows, in physical rows that the reverse map gives to it.
pub record IsHeld (rows phys_rows : ℕ) (own : ℕ → ℕ × ℕ) (slots : ℕ → Bool) (g : SnapOne)
    : Type 0 where
  pub small : g.slot < snap_slots
  pub taken : slots g.slot ≡ true
  pub sorted : IsSortedFrom 0 g.exc
  pub copies :
      (row phys : ℕ)
      → xa_load g.exc row ≡ some phys
      → (row < rows) × (phys < phys_rows) × (own phys ≡ (own_snap g.slot, row))

abbrev pub AllHeld : ℕ → ℕ → (ℕ → ℕ × ℕ) → (ℕ → Bool) → List SnapOne → Type 0
AllHeld rows phys_rows own slots [] = Unit
AllHeld rows phys_rows own slots (g ∷ r) =
    IsHeld rows phys_rows own slots g × AllHeld rows phys_rows own slots r

-- No snapshot of the chain sits in slot `s`.
abbrev pub AllElsewhere : ℕ → List SnapOne → Type 0
AllElsewhere s [] = Unit
AllElsewhere s (g ∷ r) = (g.slot ≢ s) × AllElsewhere s r

abbrev pub AllDistinct : List SnapOne → Type 0
AllDistinct [] = Unit
AllDistinct (g ∷ r) = AllElsewhere g.slot r × AllDistinct r

pub record IsOwned (sn : Sn) : Type 0 where
  pub directory : IsDirectory sn.origin_rows sn.odir
  pub home :
      (row : ℕ)
      → row < sn.origin_rows
      → (origin sn.odir row < sn.phys_rows) × (owner_of sn (origin sn.odir row) ≡ (own_origin, row))
  pub held : AllHeld sn.origin_rows sn.phys_rows (owner_of sn) sn.slots sn.snaps
  pub distinct : AllDistinct sn.snaps
  pub idle : (phys : ℕ) → sn.used phys ≡ false → (owner_of sn phys).0 ≡ own_free
  pub counted : sn.nsnaps ≡ length sn.snaps

-- A row behind a snapshot or the origin is in the array and has an owner.
pub resolve-owned :
    (rows phys_rows : ℕ) (own : ℕ → ℕ × ℕ) (slots : ℕ → Bool) (base : ℕ → ℕ) (chain : List SnapOne)
    (row : ℕ)
    → AllHeld rows phys_rows own slots chain
    → row < rows
    → (base row < phys_rows) × ((own (base row)).0 ≢ own_free)
    → (resolve chain base row < phys_rows) × ((own (resolve chain base row)).0 ≢ own_free)
unfolding resolve
resolve-owned rows phys_rows own slots base [] row h lt b = b
resolve-owned rows phys_rows own slots base (g ∷ r) row (hg, hr) lt b =
    elim (Option-cases (xa_load g.exc row)) [
      | inl e ↦ rw e (resolve-owned rows phys_rows own slots base r row hr lt b)
      | inr (phys, e) ↦ rw e (
        (hg.copies row phys e).1,
        λ q. absurd (omega (arith, hg.small, q, ap (λ p. p.0) (hg.copies row phys e).2)),
      )
    ]

module _ (rows phys_rows : ℕ) (own : ℕ → ℕ × ℕ) (slots : ℕ → Bool) where
  pub AllHeld-append :
      (k l : List SnapOne)
      → AllHeld rows phys_rows own slots k
      → AllHeld rows phys_rows own slots l
      → AllHeld rows phys_rows own slots (k ++ l)
  AllHeld-append [] l hk hl = hl
  AllHeld-append (g ∷ k) l (hg, hk) hl = (hg, AllHeld-append k l hk hl)

  pub AllHeld-parts :
      (k l : List SnapOne)
      → AllHeld rows phys_rows own slots (k ++ l)
      → AllHeld rows phys_rows own slots k × AllHeld rows phys_rows own slots l
  AllHeld-parts [] l h = (tt, h)
  AllHeld-parts (g ∷ k) l (hg, h) = let p = AllHeld-parts k l h in ((hg, p.0), p.1)

-- The invariant of a snapshot, when no row of its own changes hands and no slot is given up.
pub AllHeld-map :
    (rows phys_rows : ℕ) (own after : ℕ → ℕ × ℕ) (slots later : ℕ → Bool) (chain : List SnapOne)
    → ((g : SnapOne) → IsHeld rows phys_rows own slots g → IsHeld rows phys_rows after later g)
    → AllHeld rows phys_rows own slots chain
    → AllHeld rows phys_rows after later chain
AllHeld-map rows phys_rows own after slots later [] f h = tt
AllHeld-map rows phys_rows own after slots later (g ∷ r) f (hg, hr) =
    (f g hg, AllHeld-map rows phys_rows own after slots later r f hr)

pub AllElsewhere-parts :
    (s : ℕ) (k l : List SnapOne) → AllElsewhere s (k ++ l) → AllElsewhere s k × AllElsewhere s l
AllElsewhere-parts s [] l h = (tt, h)
AllElsewhere-parts s (g ∷ k) l (hg, h) = let p = AllElsewhere-parts s k l h in ((hg, p.0), p.1)

pub AllElsewhere-append :
    (s : ℕ) (k l : List SnapOne) → AllElsewhere s k → AllElsewhere s l → AllElsewhere s (k ++ l)
AllElsewhere-append s [] l hk hl = hl
AllElsewhere-append s (g ∷ k) l (hg, hk) hl = (hg, AllElsewhere-append s k l hk hl)
