-- ===== src/Dcl/Chain/Walk.antt =====
-- The columns that a chain visits: no two chains from group columns meet, and none turns back.
use native.Mathlib.Nat.{zero-add}
use md_kmec.Base.{
  ℕ, suc, ◌+◌, ◌*◌, ◌≤◌, ◌<◌, ◌≡◌, refl, sym, ap, ◌∙◌, subst, List, [], ◌∷◌, some, length,
  get_elem?, get_elem?-lt, arith, ◌==◌, if◌then◌else◌, Bool-cases, inl, inr, ℕ_discrete, pigeonhole,
}
use md_kmec.Dcl.Geom.{Geom, IsGeom}
use md_kmec.Dcl.Tables.Inverse.{HasTables}
use md_kmec.Dcl.Map.{disk, lcol}
use md_kmec.Dcl.Map.Bijective.{lcol-disk}
use md_kmec.Dcl.Map.RoundTrip.{gcols-plain}
use md_kmec.Dcl.Chain.{Assign, find_disk, find_spare, spare_col}

-- The assignments name disks of the pool and spare columns, and no disk and no spare twice.
pub record AreAssigned (ge : Geom) (asn : List Assign) : Type 0 where
  pub disk_in : (i : ℕ) (a : Assign) → get_elem? asn i ≡ some a → a.disk < ge.n
  pub spare_in : (i : ℕ) (a : Assign) → get_elem? asn i ≡ some a → a.spare < ge.s
  pub one_disk :
      (i j : ℕ) (a b : Assign)
      → get_elem? asn i ≡ some a
      → get_elem? asn j ≡ some b
      → a.disk ≡ b.disk
      → i ≡ j
  pub one_spare :
      (i j : ℕ) (a b : Assign)
      → get_elem? asn i ≡ some a
      → get_elem? asn j ≡ some b
      → a.spare ≡ b.spare
      → i ≡ j

-- The searches return an entry of the list with the disk, or the spare, that was asked for.
pub find_disk-some :
    (asn : List Assign) (x i j : ℕ) (a : Assign)
    → find_disk asn x i ≡ some (j, a)
    → (k : ℕ) × (j ≡ i + k) × (get_elem? asn k ≡ some a) × (a.disk ≡ x)
unfolding find_disk
find_disk-some [] x i j a e = absurd (cc)
find_disk-some (b ∷ asn) x i j a e = elim (Bool-cases (b.disk == x)) [
  | inl here ↦ (0, ground arith, ground arith, ground arith)
  | inr there ↦
      let (k, p, q, r) = find_disk-some asn x (suc i) j a (rw there at e) in
      (suc k, omega arith, q, r)
]

pub find_spare-some :
    (asn : List Assign) (x i j : ℕ) (a : Assign)
    → find_spare asn x i ≡ some (j, a)
    → (k : ℕ) × (j ≡ i + k) × (get_elem? asn k ≡ some a) × (a.spare ≡ x)
unfolding find_spare
find_spare-some [] x i j a e = absurd (cc)
find_spare-some (b ∷ asn) x i j a e = elim (Bool-cases (b.spare == x)) [
  | inl here ↦ (0, ground arith, ground arith, ground arith)
  | inr there ↦
      let (k, p, q, r) = find_spare-some asn x (suc i) j a (rw there at e) in
      (suc k, omega arith, q, r)
]

-- The search's answer names the entry itself.
pub found_entry :
    (asn : List Assign) (x : ℕ) {i : ℕ} {a : Assign}
    → find_disk asn x 0 ≡ some (i, a)
    → (get_elem? asn i ≡ some a) × (a.disk ≡ x)
found_entry asn x {i} {a} e =
    let (k, p, q, r) = find_disk-some asn x 0 i a e in (rw p (rw (zero-add k) q), r)

pub found_spare :
    (asn : List Assign) (x : ℕ) {i : ℕ} {a : Assign}
    → find_spare asn x 0 ≡ some (i, a)
    → (get_elem? asn i ≡ some a) × (a.spare ≡ x)
found_spare asn x {i} {a} e =
    let (k, p, q, r) = find_spare-some asn x 0 i a e in (rw p (rw (zero-add k) q), r)

-- `e` is the column that the write chain of column `c` reaches by `n` hops.
pub data Walk (ge : Geom) (asn : List Assign) (row c : ℕ) : ℕ → ℕ → Type 0 where
  start : Walk ge asn row c 0 c
  hop :
      {n e f i : ℕ} {a : Assign}
      → Walk ge asn row c n e
      → find_disk asn (disk ge row e) 0 ≡ some (i, a)
      → f ≡ spare_col ge a
      → Walk ge asn row c (suc n) f

module _ {ge : Geom} {asn : List Assign} (row : ℕ) where
  -- The entry of the list that the walk's hop number `p` goes through.
  pub index_at : {c n e : ℕ} → Walk ge asn row c n e → ℕ → ℕ
  index_at start p = 0
  index_at (hop {n} {i} w found at_spare) p = if p == n then i else index_at w p

  pub index_at-hop :
      {c n e f i : ℕ} {a : Assign} (w : Walk ge asn row c n e)
      (found : find_disk asn (disk ge row e) 0 ≡ some (i, a)) (s : f ≡ spare_col ge a) (p : ℕ)
      → index_at (hop w found s) p ≡ (if p == n then i else index_at w p)
  unfolding index_at
  index_at-hop w found s p = refl

  pub step_at :
      {c n e : ℕ} (w : Walk ge asn row c n e) (p : ℕ)
      → p < n
      → (f : ℕ) × (a : Assign) × Walk ge asn row c p f
        × (find_disk asn (disk ge row f) 0 ≡ some (index_at w p, a))
  unfolding index_at
  step_at start p h = absurd (omega arith)
  step_at {c} (hop {n} {e} {a} w found s) p h = elim (ℕ_discrete p n) [
    | yes same ↦ (e, a, subst (λ k. Walk ge asn row c k e) (sym same) w, ground (arith, found))
    | no other ↦ let (f, b, q, r) = step_at w p (omega arith) in (f, b, q, ground (arith, r))
  ]

module _ {ge : Geom} {asn : List Assign} (v : IsGeom ge) (t : HasTables ge) (w : AreAssigned ge asn)
    (row : ℕ) where
  pub spare_col-plain :
      (i : ℕ) (a : Assign) → get_elem? asn i ≡ some a → spare_col ge a ≡ ge.ngroups * ge.g + a.spare
  spare_col-plain i a e = omega (arith, gcols-plain v, w.spare_in i a e, v.columns, v.pool_max)

  pub Walk-lt : {c n e : ℕ} → c < ge.n → Walk ge asn row c n e → e < ge.n
  Walk-lt hc start = hc
  Walk-lt hc (hop {i} {a} r found s) =
      let (entry, _) = found_entry asn _ found in
      omega (arith, s, spare_col-plain i a entry, w.spare_in i a entry, v.columns)

  -- The column that a hop reaches is a spare column.
  pub hop-ge :
      (e : ℕ) {i : ℕ} {a : Assign}
      → find_disk asn (disk ge row e) 0 ≡ some (i, a)
      → ge.ngroups * ge.g ≤ spare_col ge a
  hop-ge e {i} {a} found =
      let (entry, _) = found_entry asn _ found in omega (arith, spare_col-plain i a entry)

  -- A column has one predecessor at most.
  same_from :
      {e f i j : ℕ} {a b : Assign}
      → e < ge.n
      → f < ge.n
      → find_disk asn (disk ge row e) 0 ≡ some (i, a)
      → find_disk asn (disk ge row f) 0 ≡ some (j, b)
      → i ≡ j
      → e ≡ f
  same_from {e} {f} {i} {j} {a} {b} he hf p q ij =
      let (pa, da) = found_entry asn _ p in
      let (qb, db) = found_entry asn _ q in
      let same : a ≡ b = cc in
      let disks : disk ge row e ≡ disk ge row f = sym da ∙ ap (λ (x : Assign). x.disk) same ∙ db in
      sym (lcol-disk v row t e he) ∙ ap (lcol ge row) disks ∙ lcol-disk v row t f hf

  -- Two walks from group columns that meet are one walk.
  pub meet :
      {c c' n n' e e' : ℕ}
      → c < ge.ngroups * ge.g
      → c' < ge.ngroups * ge.g
      → Walk ge asn row c n e
      → Walk ge asn row c' n' e'
      → e ≡ e'
      → (n ≡ n') × (c ≡ c')
  meet hc hc' start start h = (refl, h)
  meet hc hc' start (hop r found s) h = absurd (omega (arith, h, s, hop-ge _ found))
  meet hc hc' (hop r found s) start h = absurd (omega (arith, h, s, hop-ge _ found))
  meet hc hc' (hop {i = i} {a = a} r found s) (hop {i = j} {a = b} r' found' s') h =
      let (pa, _) = found_entry asn _ found in
      let (qb, _) = found_entry asn _ found' in
      let spares : a.spare ≡ b.spare =
        omega (arith, h, s, s', spare_col-plain i a pa, spare_col-plain j b qb) in
      let before =
        same_from (Walk-lt (omega (arith, v.columns)) r) (Walk-lt (omega (arith, v.columns)) r')
          found found' (w.one_spare i j a b pa qb spares) in
      let (p, q) = meet hc hc' r r' before in (ap suc p, q)

  -- A chain from a group column goes through every assignment once at most.
  pub Walk-short : {c n e : ℕ} → c < ge.ngroups * ge.g → Walk ge asn row c n e → n ≤ length asn
  Walk-short {n} hc r =
      pigeonhole (length asn) n (index_at row r)
        (λ p hp.
          let (f, a, q, found) = step_at row r p hp in
          get_elem?-lt asn (index_at row r p) (found_entry asn _ found).0)
        (λ p q hp hq same.
          let (f, a, r1, found1) = step_at row r p hp in
          let (f', b, r2, found2) = step_at row r q hq in
          let cn : ge.ngroups * ge.g ≤ ge.n = omega (arith, v.columns) in
          (meet hc hc r1 r2
            (same_from (Walk-lt (omega arith) r1) (Walk-lt (omega arith) r2) found1 found2 same)).0)
