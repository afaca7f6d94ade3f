-- ===== src/Snap/View.antt =====
-- What a reader sees: the origin row by row, and each snapshot through the newer ones, as
-- `rk_snap_submit_bio` of km/raid_km-snap.c finds the row. `Volume` is the abstract view, which
-- knows nothing of physical rows.
use md_kmec.Base.{
  ℕ, ◌<◌, ◌≡◌, refl, ap, Option, none, some, List, [], ◌∷◌, ◌++◌, ltb, ◌==◌, if◌then◌else◌, xa_load,
  update, Bool-cases, ltb_iff, inl, inr,
}
use mathlib.Core.Path.{fun_ext}
use md_kmec.Snap.State.{SnapOne, Sn}
use md_kmec.Snap.Origin.{origin}

abbrev pub or_else : Option ℕ → ℕ → ℕ
or_else none d = d
or_else (some p) d = p

-- The physical row behind a row of a snapshot: the first copy from it to the newest, else the
-- origin's own row.
unfoldable pub resolve : List SnapOne → (ℕ → ℕ) → ℕ → ℕ
resolve [] base row = base row
resolve (h ∷ r) base row = or_else (xa_load h.exc row) (resolve r base row)

pub resolve-append :
    (k l : List SnapOne) (base : ℕ → ℕ) (row : ℕ)
    → resolve (k ++ l) base row ≡ resolve k (resolve l base) row
unfolding resolve
resolve-append [] l base row = refl
resolve-append (h ∷ k) l base row = rw (resolve-append k l base row) refl

pub record Volume {ℓ} (A : Type ℓ) : Type ℓ where
  pub live : ℕ → Option A
  pub kept : List (ℕ × (ℕ → Option A))

module _ {ℓ} {A : Type ℓ} where
  -- A row past the origin is an error.
  abbrev pub rows_of : ℕ → (ℕ → A) → (ℕ → ℕ) → ℕ → Option A
  rows_of rows c place row = if ltb row rows then some (c (place row)) else none

  unfoldable pub frozen : ℕ → (ℕ → A) → (ℕ → ℕ) → List SnapOne → List (ℕ × (ℕ → Option A))
  frozen rows c base [] = []
  frozen rows c base (g ∷ r) =
      (g.slot, rows_of rows c (resolve (g ∷ r) base)) ∷ frozen rows c base r

  -- The rows' content behind the maps of the array, read as a volume with its snapshots.
  unfoldable pub view : Sn → (ℕ → A) → Volume A
  view sn c = record {
    live = rows_of sn.origin_rows c (origin sn.odir);
    kept = frozen sn.origin_rows c (origin sn.odir) sn.snaps;
  }

  -- The abstract operations.
  unfoldable pub write : ℕ → A → Volume A → Volume A
  write row v vol = record vol { live = update vol.live row (some v) }

  unfoldable pub freeze : ℕ → Volume A → Volume A
  freeze s vol = record vol { kept = vol.kept ++ ((s, vol.live) ∷ []) }

  unfoldable pub without : ℕ → List (ℕ × (ℕ → Option A)) → List (ℕ × (ℕ → Option A))
  without s [] = []
  without s ((t, f) ∷ r) = let rest = without s r in if t == s then r else (t, f) ∷ rest

  unfoldable pub forget : ℕ → Volume A → Volume A
  unfolding without
  forget s vol = record vol { kept = without s vol.kept }

  pub rows_of_same :
      (rows : ℕ) (c d : ℕ → A) (f g : ℕ → ℕ)
      → ((row : ℕ) → row < rows → c (f row) ≡ d (g row))
      → rows_of rows c f ≡ rows_of rows d g
  rows_of_same rows c d f g h = fun_ext (λ row. elim (Bool-cases (ltb row rows)) [
    | inl e ↦ rw e (ap some (h row ((ltb_iff row rows).0 e)))
    | inr e ↦ rw e refl
  ])

  pub frozen-cons :
      (rows : ℕ) (c d : ℕ → A) (s : ℕ) (f h : ℕ → ℕ) {k l : List (ℕ × (ℕ → Option A))}
      → ((row : ℕ) → row < rows → c (f row) ≡ d (h row))
      → k ≡ l
      → ◌≡◌ {A = List (ℕ × (ℕ → Option A))} ((s, rows_of rows c f) ∷ k) ((s, rows_of rows d h) ∷ l)
  frozen-cons rows c d s f h same rest =
      let head = rows_of_same rows c d f h same in λ i. (s, head i) ∷ rest i

  -- The snapshots of the first part read through those of the second.
  pub frozen-append :
      (rows : ℕ) (c : ℕ → A) (base : ℕ → ℕ) (k l : List SnapOne)
      → frozen rows c base (k ++ l) ≡ frozen rows c (resolve l base) k ++ frozen rows c base l
  unfolding frozen
  frozen-append rows c base [] l = refl
  frozen-append rows c base (g ∷ k) l =
      frozen-cons rows c c g.slot (resolve (g ∷ (k ++ l)) base) (resolve (g ∷ k) (resolve l base))
        (λ row _. ap c (resolve-append (g ∷ k) l base row)) (frozen-append rows c base k l)
