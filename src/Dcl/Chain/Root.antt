-- ===== src/Dcl/Chain/Root.antt =====
-- `dcl_chain_root` and `dcl_chain_traverses` invert one another, as the simulator's P4/A6 check
-- and the kernel selftest assert.
use md_kmec.Base.{
  ℕ, zero, suc, ◌+◌, ◌-◌, ◌*◌, ◌^◌, ◌≤◌, ◌<◌, ◌≡◌, ◌≢◌, ◌↔◌, refl, sym, ap, ◌∙◌, List, [], ◌∷◌,
  true, false, none, some, length, get_elem?, arith, ltb, ◌==◌, Option-cases, Bool-cases, inl, inr,
  u32, ℕ_discrete,
}
use md_kmec.Dcl.Geom.{Geom, IsGeom}
use md_kmec.Dcl.Tables.Inverse.{HasTables}
use md_kmec.Dcl.Map.{gcols, disk, lcol}
use md_kmec.Dcl.Map.Bijective.{lcol-lt, lcol-disk, disk-lcol}
use md_kmec.Dcl.Map.RoundTrip.{gcols-plain}
use md_kmec.Dcl.Chain.{
  Assign, find_disk, find_spare, spare_col, traverses_from, chain_traverses, root_from, chain_root,
}
use md_kmec.Dcl.Chain.Walk.{
  AreAssigned, Walk, start, hop, step_at, found_entry, found_spare, Walk-lt, meet, Walk-short,
  spare_col-plain,
}

-- The searches miss no entry.
find_disk-none :
    (asn : List Assign) (x i k : ℕ) (a : Assign)
    → find_disk asn x i ≡ none
    → get_elem? asn k ≡ some a
    → a.disk ≢ x
unfolding find_disk
find_disk-none [] x i k a h e = absurd (cc)
find_disk-none (b ∷ asn) x i zero a h e = ground arith
find_disk-none (b ∷ asn) x i (suc k) a h e = ground (arith, find_disk-none asn x (suc i) k a)

find_spare-none :
    (asn : List Assign) (x i k : ℕ) (a : Assign)
    → find_spare asn x i ≡ none
    → get_elem? asn k ≡ some a
    → a.spare ≢ x
unfolding find_spare
find_spare-none [] x i k a h e = absurd (cc)
find_spare-none (b ∷ asn) x i zero a h e = ground arith
find_spare-none (b ∷ asn) x i (suc k) a h e = ground (arith, find_spare-none asn x (suc i) k a)

module _ {ge : Geom} {asn : List Assign} (v : IsGeom ge) (t : HasTables ge) (w : AreAssigned ge asn)
    (row : ℕ) where
  -- An entry is the only one with its disk, and the only one with its spare.
  found_disk_of :
      (i : ℕ) (a : Assign) → get_elem? asn i ≡ some a → find_disk asn a.disk 0 ≡ some (i, a)
  found_disk_of i a e = elim (Option-cases (find_disk asn a.disk 0)) [
    | inl missing ↦ absurd (find_disk-none asn a.disk 0 i a missing e refl)
    | inr ((j, b), found) ↦
        let (at_j, same) = found_entry asn a.disk found in
        let ij : j ≡ i = w.one_disk j i b a at_j e same in let ab : b ≡ a = cc in cc
  ]

  found_spare_of :
      (i : ℕ) (a : Assign) → get_elem? asn i ≡ some a → find_spare asn a.spare 0 ≡ some (i, a)
  found_spare_of i a e = elim (Option-cases (find_spare asn a.spare 0)) [
    | inl missing ↦ absurd (find_spare-none asn a.spare 0 i a missing e refl)
    | inr ((j, b), found) ↦
        let (at_j, same) = found_spare asn a.spare found in
        let ij : j ≡ i = w.one_spare j i b a at_j e same in let ab : b ≡ a = cc in cc
  ]

  -- The root walk finds the start of every walk to its disk.
  root_from_complete :
      {c n e : ℕ} (left x : ℕ)
      → c < ge.ngroups * ge.g
      → Walk ge asn row c n e
      → disk ge row e ≡ x
      → n < left
      → root_from ge asn row left x ≡ some c
  unfolding root_from
  root_from_complete zero x hc walk h fuel = absurd (omega arith)
  root_from_complete {c} (suc left) x hc start h fuel =
      let here : lcol ge row x ≡ c =
        ap (lcol ge row) (sym h) ∙ lcol-disk v row t c (omega (arith, v.columns)) in
      ground (arith, gcols-plain v)
  root_from_complete {c} (suc left) x hc (hop {n} {e} {f} {i} {a} walk found s) h fuel =
      let cn : c < ge.n = omega (arith, v.columns) in
      let (entry, same) = found_entry asn _ found in
      let in_pool = Walk-lt v t w row cn (hop walk found s) in
      let here : lcol ge row x ≡ f = ap (lcol ge row) (sym h) ∙ lcol-disk v row t f in_pool in
      let plain = spare_col-plain v t w row i a entry in
      let small = w.spare_in i a entry in
      let index : u32 (lcol ge row x + 2 ^ 32 - gcols ge) ≡ a.spare =
        omega (arith, gcols-plain v, v.columns, v.pool_max) in
      let search : find_spare asn (u32 (lcol ge row x + 2 ^ 32 - gcols ge)) 0 ≡ some (i, a) =
        ap (λ j. find_spare asn j 0) index ∙ found_spare_of i a entry in
      let rest = root_from_complete left a.disk hc walk (sym same) (omega arith) in
      let past : ltb (lcol ge row x) (gcols ge) ≡ false = ground (arith, gcols-plain v) in
      ground (arith, search, past, rest)

  -- What the root walk returns is the start of a walk to its disk.
  root_from_sound :
      {c : ℕ} (left x : ℕ)
      → x < ge.n
      → root_from ge asn row left x ≡ some c
      → (n : ℕ) × (e : ℕ) × (c < ge.ngroups * ge.g) × Walk ge asn row c n e × (disk ge row e ≡ x)
  root_from_sound zero x hx h = absurd (unfold root_from in cc)
  root_from_sound {c} (suc left) x hx h =
      let e0 = lcol ge row x in
      let j = u32 (e0 + 2 ^ 32 - gcols ge) in
      elim (Bool-cases (ltb e0 (gcols ge))) [
        | inl group ↦
            let same : e0 ≡ c = unfold root_from in ground arith in
            (
              0,
              c,
              ground (arith, gcols-plain v),
              start,
              ap (disk ge row) (sym same) ∙ disk-lcol v row t x hx,
            )
        | inr past ↦ elim (Option-cases (find_spare asn j 0)) [
          | inl missing ↦ absurd (unfold root_from in ground arith)
          | inr ((i, a), found) ↦
              let (entry, spare_j) = found_spare asn j found in
              let rest : root_from ge asn row left a.disk ≡ some c =
                unfold root_from in ground arith in
              let (n, e, hc, walk, at_disk) =
                root_from_sound left a.disk (w.disk_in i a entry) rest in
              let found_disk = ap (λ y. find_disk asn y 0) at_disk ∙ found_disk_of i a entry in
              let col_lt = lcol-lt v row t x in
              let arrives : e0 ≡ spare_col ge a = ground (
                arith,
                gcols-plain v,
                v.columns,
                v.pool_max,
                spare_col-plain v t w row i a entry,
              ) in
              (suc n, e0, hc, hop walk found_disk arrives, disk-lcol v row t x hx)
        ]
      ]

  -- The forward walk to a disk, where `dcl_chain_traverses` says that there is one.
  traverses_from_sound :
      (c x left n e : ℕ)
      → Walk ge asn row c n e
      → traverses_from ge asn row x left e (disk ge row e) ≡ true
      → (n' : ℕ) × (e' : ℕ) × Walk ge asn row c n' e' × (disk ge row e' ≡ x)
  traverses_from_sound c x zero n e walk h = absurd (unfold traverses_from in cc)
  traverses_from_sound c x (suc left) n e walk h = elim (Bool-cases (disk ge row e == x)) [
    | inl here ↦ (n, e, walk, ground arith)
    | inr past ↦ elim (Option-cases (find_disk asn (disk ge row e) 0)) [
      | inl missing ↦ absurd (unfold traverses_from in ground arith)
      | inr ((i, a), found) ↦
          traverses_from_sound c x left (suc n) (spare_col ge a) (hop walk found refl)
            (unfold traverses_from in ground arith)
    ]
  ]

  Walk-unique :
      {c n n' e e' : ℕ} → Walk ge asn row c n e → Walk ge asn row c n' e' → n ≡ n' → e ≡ e'
  Walk-unique start start h = refl
  Walk-unique start (hop r found s) h = absurd (omega arith)
  Walk-unique (hop r found s) start h = absurd (omega arith)
  Walk-unique (hop r found s) (hop r' found' s') h =
      let before = Walk-unique r r' (omega arith) in cc

  traverses_hop :
      (x left e : ℕ) {i : ℕ} {a : Assign}
      → find_disk asn (disk ge row e) 0 ≡ some (i, a)
      → (spare_col ge a == e) ≡ false
      → traverses_from ge asn row x left (spare_col ge a) (disk ge row (spare_col ge a)) ≡ true
      → traverses_from ge asn row x (suc left) e (disk ge row e) ≡ true
  unfolding traverses_from
  traverses_hop x left e found differs rest = ground arith

  -- The loop of `dcl_chain_traverses` meets every disk on the chain.
  traverses_from_complete :
      {c n' e' : ℕ} (x left n e : ℕ)
      → c < ge.ngroups * ge.g
      → Walk ge asn row c n e
      → Walk ge asn row c n' e'
      → disk ge row e' ≡ x
      → n ≤ n'
      → n' < n + left
      → traverses_from ge asn row x left e (disk ge row e) ≡ true
  traverses_from_complete x zero n e hc walk far h le fuel = absurd (omega arith)
  traverses_from_complete {c} {n'} {e'} x (suc left) n e hc walk far h le fuel =
      elim (ℕ_discrete n n') [
        | yes same ↦
            let col : e ≡ e' = Walk-unique walk far same in
            let met : disk ge row e ≡ x = ap (disk ge row) col ∙ h in
            unfold traverses_from in ground arith
        | no before ↦
            let (f, a, upto, found_f) = step_at row far n (omega arith) in
            let col : f ≡ e = Walk-unique upto walk refl in
            let found = sym (ap (λ y. find_disk asn (disk ge row y) 0) col) ∙ found_f in
            let further = hop walk found refl in
            let rest =
              traverses_from_complete x left (suc n) (spare_col ge a) hc further far h (omega arith)
                (omega arith) in
            let differs : (spare_col ge a == e) ≡ false = elim (Bool-cases (spare_col ge a == e)) [
              | inl same ↦ absurd (omega (arith, meet v t w row hc hc further walk (ground arith)))
              | inr p ↦ p
            ] in
            traverses_hop x left e found differs rest
      ]

  -- For every disk of the pool `dcl_chain_root` returns column `c` exactly when `c` is a group
  -- column and `dcl_chain_traverses` finds the disk on its write chain: so -1 means that no chain
  -- passes through the disk, and no disk is on two chains.
  pub chain_root-iff-traverses :
      (c x : ℕ)
      → x < ge.n
      → (chain_root ge asn row x ≡ some c)
        ↔ ((c < ge.ngroups * ge.g) × (chain_traverses ge asn row x c ≡ true))
  unfolding chain_root chain_traverses
  chain_root-iff-traverses c x hx = (
    λ h.
        let (n, e, hc, walk, at_disk) = root_from_sound {c = c} (length asn + 1) x hx h in
        let short = Walk-short v t w row hc walk in
        (
          hc,
          traverses_from_complete x (length asn + 1) 0 c hc start walk at_disk (omega arith)
              (omega arith),
        ),
    λ (hc, h).
        let (n, e, walk, at_disk) = traverses_from_sound c x (length asn + 1) 0 c start h in
        let short = Walk-short v t w row hc walk in
        root_from_complete (length asn + 1) x hc walk at_disk (omega arith),
  )
