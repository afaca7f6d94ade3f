-- ===== src/Snap/Redirect.antt =====
-- A copy-on-write in `rk_snap_apply` of km/raid_km-snap.c: the old row goes to the newest snapshot,
-- the origin gets the new one.
pub mod Owners
use md_kmec.Base.{
  ℕ, zero, suc, ◌+◌, ◌/◌, ◌%◌, ◌<◌, ◌≤◌, ◌≡◌, ◌≢◌, refl, sym, ap, ◌∙◌, Bool, true, false, Option,
  none, some, List, [], ◌∷◌, ◌++◌, length, ◌==◌, if◌then◌else◌, IsSortedFrom, xa_load, xa_store,
  xa_load-store, store-IsSortedFrom, update, arith, Option-cases, Bool-cases, inl, inr, ℕ_discrete,
  ==_iff, ltb, ltb_iff,
}
use mathlib.Core.Path.{fun_ext}
use md_kmec.Snap.Origin.{origin, put_origin, origin-put_origin, put_origin-IsDirectory}
use md_kmec.Snap.Rmap.{own_origin, own_snap, own_free, rmap_get-rmap_put}
use md_kmec.Snap.State.{Sn, SnapOne, owner_of, snap_slots, newest, lacks, shared, rmap_set}
use md_kmec.Snap.Apply.{apply_redirect, keep_row, on_newest}
use md_kmec.Snap.View.{resolve, frozen, frozen-cons, rows_of, rows_of_same, Volume, view, write}
use md_kmec.Snap.Owned.{IsHeld, AllHeld, AllElsewhere, AllDistinct, IsOwned, resolve-owned}

pub lacks-none : (g : SnapOne) (row : ℕ) → lacks (some g) row ≡ true → xa_load g.exc row ≡ none
lacks-none g row h = elim (Option-cases (xa_load g.exc row)) [
  | inl e ↦ e
  | inr (phys, e) ↦ let f = rw (e, lacks) at h in cc f
]

pub miss : (a b : ℕ) → a ≢ b → (a == b) ≡ false
miss a b h = ground arith

-- The newest snapshot keeps the old row: whatever a snapshot of the chain resolved to, it still does.
resolve_kept :
    (chain : List SnapOne) (base after : ℕ → ℕ) (row other : ℕ)
    → lacks (newest chain) row ≡ true
    → (row ≢ other → after other ≡ base other)
    → resolve (on_newest (keep_row row (base row)) chain) after other ≡ resolve chain base other
unfolding resolve on_newest keep_row newest
resolve_kept [] base after row other h k = cc
resolve_kept (g ∷ []) base after row other h k =
    rw (xa_load-store g.exc row other (base row)) (elim (ℕ_discrete row other) [
      | yes e ↦ ground (arith, e, ap base e, lacks-none g row h, ap (λ n. xa_load g.exc n) e)
      | no e ↦ ground (arith, e, k e)
    ])
resolve_kept (g ∷ j ∷ r) base after row other h k =
    rw (resolve_kept (j ∷ r) base after row other h k) refl

-- Which row belongs to whom after a copy-on-write.
pub owner-redirect :
    (g : SnapOne) (row old_phys new_phys : ℕ) (sn : Sn) (phys : ℕ)
    → g.slot < snap_slots
    → owner_of (apply_redirect g row old_phys new_phys sn) phys ≡ (
        if new_phys == phys
        then (own_origin, row)
        else if old_phys == phys
        then (own_snap g.slot, row)
        else owner_of sn phys)
unfolding apply_redirect rmap_set
owner-redirect g row old_phys new_phys sn phys small = ground (
  arith,
  rmap_get-rmap_put sn.origin_rows sn.rmap old_phys row (own_snap g.slot) phys,
  rmap_get-rmap_put sn.origin_rows (rmap_set sn old_phys row (own_snap g.slot)).rmap new_phys row
      own_origin phys,
)

module _ {ℓ} {A : Type ℓ} where
  -- A write to a row that nobody owns does not show where somebody does.
  pub update_idle :
      (own : ℕ → ℕ × ℕ) (c : ℕ → A) (new_phys : ℕ) (v : A) (phys : ℕ)
      → (own new_phys).0 ≡ own_free
      → (own phys).0 ≢ own_free
      → update c new_phys v phys ≡ c phys
  update_idle own c new_phys v phys idle owned = elim (ℕ_discrete new_phys phys) [
    | yes e ↦ absurd (owned (ap (λ p. (own p).0) (sym e) ∙ idle))
    | no e ↦ rw (miss new_phys phys e) refl
  ]

  -- What a row of the snapshots shows is the same after a redirect and the write of its new row.
  read_kept :
      (rows phys_rows : ℕ) (own : ℕ → ℕ × ℕ) (slots : ℕ → Bool) (c : ℕ → A) (base after : ℕ → ℕ)
      (chain : List SnapOne) (row new_phys : ℕ) (v : A) (other : ℕ)
      → AllHeld rows phys_rows own slots chain
      → lacks (newest chain) row ≡ true
      → (row ≢ other → after other ≡ base other)
      → other < rows
      → (base other < phys_rows) × ((own (base other)).0 ≢ own_free)
      → (own new_phys).0 ≡ own_free
      → update c new_phys v (resolve (on_newest (keep_row row (base row)) chain) after other)
        ≡ c (resolve chain base other)
  read_kept rows phys_rows own slots c base after chain row new_phys v other held h same lt owned
        idle =
      let there = resolve-owned rows phys_rows own slots base chain other held lt owned in
      ap (update c new_phys v) (resolve_kept chain base after row other h same)
      ∙ update_idle own c new_phys v (resolve chain base other) idle there.1

  -- The redirect, with the write of its new row, leaves every snapshot as it was.
  frozen-redirect :
      (rows phys_rows : ℕ) (own : ℕ → ℕ × ℕ) (slots : ℕ → Bool) (c : ℕ → A) (base after : ℕ → ℕ)
      (chain : List SnapOne) (row new_phys : ℕ) (v : A)
      → AllHeld rows phys_rows own slots chain
      → lacks (newest chain) row ≡ true
      → ((other : ℕ) → row ≢ other → after other ≡ base other)
      → ((other : ℕ) → other < rows → (base other < phys_rows) × ((own (base other)).0 ≢ own_free))
      → (own new_phys).0 ≡ own_free
      → frozen rows (update c new_phys v) after (on_newest (keep_row row (base row)) chain)
        ≡ frozen rows c base chain
  unfolding frozen on_newest keep_row newest
  frozen-redirect rows phys_rows own slots c base after [] row new_phys v held h same owned idle =
      refl
  frozen-redirect rows phys_rows own slots c base after (g ∷ []) row new_phys v held h same owned
        idle =
      frozen-cons rows (update c new_phys v) c g.slot
        (resolve (keep_row row (base row) g ∷ []) after) (resolve (g ∷ []) base)
        (λ other lt.
          read_kept rows phys_rows own slots c base after (g ∷ []) row new_phys v other held h
            (same other) lt (owned other lt) idle)
        refl
  frozen-redirect rows phys_rows own slots c base after (g ∷ j ∷ r) row new_phys v held h same owned
        idle =
      frozen-cons rows (update c new_phys v) c g.slot
        (resolve (g ∷ on_newest (keep_row row (base row)) (j ∷ r)) after) (resolve (g ∷ j ∷ r) base)
        (λ other lt.
          read_kept rows phys_rows own slots c base after (g ∷ j ∷ r) row new_phys v other held h
            (same other) lt (owned other lt) idle)
        (frozen-redirect rows phys_rows own slots c base after (j ∷ r) row new_phys v held.1 h same
          owned idle)

-- Someone owns the row of the origin.
pub home-owned :
    (sn : Sn) (row : ℕ)
    → IsOwned sn
    → row < sn.origin_rows
    → (origin sn.odir row < sn.phys_rows) × ((owner_of sn (origin sn.odir row)).0 ≢ own_free)
home-owned sn row w lt =
    ((w.home row lt).0, λ q. absurd (omega (arith, q, ap (λ p. p.0) (w.home row lt).1)))

-- What a copy-on-write needs: a newest snapshot, and a new row that nobody owns.
pub record IsRedirect (sn : Sn) (g : SnapOne) (row new_phys : ℕ) : Type 0 where
  pub last : newest sn.snaps ≡ some g
  pub inside : row < sn.origin_rows
  pub fits : new_phys < sn.phys_rows
  pub idle : (owner_of sn new_phys).0 ≡ own_free

-- A write shows in the origin's row and nowhere else, if the place of every other row keeps its
-- content.
pub live_write {ℓ} :
    {A : Type ℓ} (rows : ℕ) (c d : ℕ → A) (base after : ℕ → ℕ) (row : ℕ) (v : A)
    → row < rows
    → d (after row) ≡ v
    → ((other : ℕ) → row ≢ other → other < rows → d (after other) ≡ c (base other))
    → rows_of rows d after ≡ update (rows_of rows c base) row (some v)
live_write rows c d base after row v lt here rest = fun_ext λ other. elim (ℕ_discrete row other) [
  | yes e ↦ rw (← e) (rw ((ltb_iff row rows).1 lt, (==_iff row row).1 refl) (ap some here))
  | no e ↦ rw (miss row other e) (elim (Bool-cases (ltb other rows)) [
    | inl t ↦ rw t (ap some (rest other e ((ltb_iff other rows).0 t)))
    | inr t ↦ rw t refl
  ])
]

module _ {ℓ} {A : Type ℓ} (sn : Sn) (g : SnapOne) (row new_phys : ℕ) (w : IsOwned sn)
    (ok : IsRedirect sn g row new_phys) where
  -- After a copy-on-write of a row that the newest snapshot has no copy of, the origin shows the new content of the row and no snapshot changed.
  pub view-redirect :
      (c : ℕ → A) (v : A)
      → lacks (some g) row ≡ true
      → view (apply_redirect g row (origin sn.odir row) new_phys sn) (update c new_phys v)
        ≡ write row v (view sn c)
  unfolding view write apply_redirect rmap_set
  view-redirect c v bare =
      let base = origin sn.odir in
      let after = origin (put_origin sn.odir row new_phys) in
      let moved : (other : ℕ) → after other ≡ (if row == other then new_phys else base other) =
        λ other.
          origin-put_origin sn.origin_rows sn.odir row new_phys other w.directory ok.inside in
      let here : after row ≡ new_phys =
        moved row ∙ ap (λ b. if b then new_phys else base row) ((==_iff row row).1 refl) in
      let same : (other : ℕ) → row ≢ other → after other ≡ base other =
        λ other e. moved other ∙ ap (λ b. if b then new_phys else base other) (miss row other e) in
      let live =
        live_write sn.origin_rows c (update c new_phys v) base after row v ok.inside
          (ap (update c new_phys v) here
            ∙ ap (λ b. if b then v else c new_phys) ((==_iff new_phys new_phys).1 refl))
          (λ other e lt.
            ap (update c new_phys v) (same other e)
            ∙ update_idle (owner_of sn) c new_phys v (base other) ok.idle
                (home-owned sn other w lt).1) in
      let kept =
        frozen-redirect sn.origin_rows sn.phys_rows (owner_of sn) sn.slots c base after sn.snaps row
          new_phys v w.held (ap (λ o. lacks o row) ok.last ∙ bare) same
          (λ other lt. home-owned sn other w lt) ok.idle in
      λ i. record { live = live i; kept = kept i }
