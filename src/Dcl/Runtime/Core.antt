-- ===== src/Dcl/Runtime/Core.antt =====
-- The walks of the I/O path are those of the shared core.
use native.Mathlib.Nat.{mul-le-mul_right, mul-le-mul_left}
use md_kmec.Base.{
  ℕ, zero, suc, ◌+◌, ◌-◌, ◌*◌, ◌^◌, ◌≤◌, ◌<◌, ◌≡◌, ◌⊎◌, inl, inr, refl, sym, ap, ◌∙◌, subst, List,
  [], ◌∷◌, Bool, true, false, not, ◌&&◌, Option, none, some, at, length, u32, u64, ltb, leb, ◌==◌,
  ==_iff, if◌then◌else◌, if_rule, arith, dec_le, Bool-cases,
}
use md_kmec.Dcl.Geom.{Geom}
use md_kmec.Dcl.Map.{gcols, disk, lcol}
use md_kmec.Dcl.Chain.{Assign, find_disk, find_spare, resolve_from, resolve, root_from, chain_root}
use md_kmec.Dcl.Runtime.{
  RebState, idle, populating, populated, copying, Reb, find_reb, find_reb_spare, to_spare,
  redirect_from, redirect, runtime_root_from, runtime_root,
}

-- The entries as the core has them.
unfoldable pub assigns : List Reb → List Assign
assigns [] = []
assigns (r ∷ reb) = record { disk = r.disk; spare = r.spare } ∷ assigns reb

-- The mark of an entry in rows: DCL_MARK_ALL, or for a read of a populating one the prefix.
abbrev pub mark_of : Bool → ℕ → RebState → ℕ
mark_of for_write mark_rows populating = if for_write then 2 ^ 64 - 1 else mark_rows
mark_of for_write mark_rows populated = 2 ^ 64 - 1
mark_of for_write mark_rows copying = 0
mark_of for_write mark_rows idle = 0

unfoldable pub marks : Bool → ℕ → List Reb → List ℕ
marks for_write mark_rows [] = []
marks for_write mark_rows (r ∷ reb) =
    mark_of for_write mark_rows r.state ∷ marks for_write mark_rows reb

unfoldable pub is_copying : RebState → Bool
is_copying copying = true
is_copying populated = false
is_copying populating = false
is_copying idle = false

-- No entry is copying back.
unfoldable pub none_copying : List Reb → Bool
none_copying [] = true
none_copying (r ∷ reb) = not (is_copying r.state) && none_copying reb

length-assigns : (reb : List Reb) → length (assigns reb) ≡ length reb
unfolding assigns
length-assigns [] = refl
length-assigns (r ∷ reb) = ap suc (length-assigns reb)

-- Both searches stop at one entry.
data Both (for_write : Bool) (mark_rows i : ℕ) (ms : List ℕ)
    : Option Reb → Option (ℕ × Assign) → Type 0 where
  neither : Both for_write mark_rows i ms none none
  found :
      (j : ℕ) (r : Reb)
      → at ms j ≡ mark_of for_write mark_rows r.state
      → is_copying r.state ≡ false
      → Both for_write mark_rows i ms
          (some r)
          (some (i + j, record { disk = r.disk; spare = r.spare }))

shift :
    {for_write : Bool} {mark_rows i m : ℕ} {ms : List ℕ} {x : Option Reb} {y : Option (ℕ × Assign)}
    → Both for_write mark_rows (suc i) ms x y
    → Both for_write mark_rows i (m ∷ ms) x y
shift neither = neither
shift {for_write} {mark_rows} {i} {m} {ms} (found j r e c) =
    let sum : i + suc j ≡ suc i + j = omega arith in
    subst
      (λ k.
        Both for_write mark_rows i (m ∷ ms) (some r)
          (some (k, record { disk = r.disk; spare = r.spare })))
      sum (found (suc j) r e c)

finds :
    (for_write : Bool) (mark_rows : ℕ) (reb : List Reb) (x i : ℕ)
    → none_copying reb ≡ true
    → Both for_write mark_rows i
        (marks for_write mark_rows reb)
        (find_reb reb x)
        (find_disk (assigns reb) x i)
unfolding find_reb find_disk assigns marks none_copying
finds for_write mark_rows [] x i h = neither
finds for_write mark_rows (r ∷ reb) x i h = elim (Bool-cases (r.disk == x)) [
  | inl e ↦
      let sum : i + 0 ≡ i = omega arith in
      rw (e, find_reb, find_disk)
        (subst
          (λ k.
            Both for_write mark_rows i (marks for_write mark_rows (r ∷ reb)) (some r)
              (some (k, record { disk = r.disk; spare = r.spare })))
          sum (found 0 r refl (ground arith)))
  | inr e ↦
      rw (e, find_reb, find_disk) (shift (finds for_write mark_rows reb x (suc i) (ground arith)))
]

from_zero : (j : ℕ) → 0 + j ≡ j
from_zero j = omega arith

no_entries : (reb : List Reb) (x : ℕ) → (length reb == 0) ≡ true → find_reb reb x ≡ none
unfolding find_reb
no_entries [] x h = refl
no_entries (r ∷ reb) x h = absurd (ground arith)

module _ (ge : Geom) (reb : List Reb) (for_write : Bool) (mark_rows chunk_sectors row : ℕ)
    (sectors_pos : 0 < chunk_sectors) (row_fits : (row + 1) * chunk_sectors < 2 ^ 64)
    (quiet : none_copying reb ≡ true) where
  abbrev mark : ℕ
  mark = mark_rows * chunk_sectors

  whole : false ≡ leb (2 ^ 64 - 1) row
  whole =
      let rows : (row + 1) * 1 ≤ (row + 1) * chunk_sectors =
        mul-le-mul_left (row + 1) sectors_pos in
      ground arith

  -- The row is covered exactly where the core says so.
  covers :
      (state : RebState)
      → is_copying state ≡ false
      → not (to_spare state chunk_sectors mark for_write row)
        ≡ leb (mark_of for_write mark_rows state) row
  unfolding to_spare is_copying
  covers idle h = ground arith
  covers copying h = absurd (cc h)
  covers populated h = whole
  covers populating h = elim (Bool-cases for_write) [
    | inl w ↦ rw w whole
    | inr r ↦
        let plain : u64 ((row + 1) * chunk_sectors) ≡ (row + 1) * chunk_sectors = omega arith in
        rw (r, plain)
          (elim (dec_le (row + 1) mark_rows) [
            | yes below ↦ ground (arith, mul-le-mul_right chunk_sectors below)
            | no past ↦
                let above : mark_rows + 1 ≤ row + 1 = omega arith in
                let sectors : (mark_rows + 1) * chunk_sectors ≤ (row + 1) * chunk_sectors =
                  mul-le-mul_right chunk_sectors above in
                ground arith
          ])
  ]

  abbrev asn : List Assign
  asn = assigns reb

  abbrev ms : List ℕ
  ms = marks for_write mark_rows reb

  abbrev runtime : ℕ → ℕ → ℕ
  runtime = redirect_from ge reb chunk_sectors mark row for_write

  -- A spare column that holds the disk itself keeps the walk where it is.
  self_loop :
      (left x : ℕ) (r : Reb)
      → find_reb reb x ≡ some r
      → disk ge row (u32 (gcols ge + r.spare)) ≡ x
      → runtime left x ≡ x
  unfolding redirect_from
  self_loop zero x r e d = refl
  self_loop (suc left) x r e d =
      rw (e, redirect_from)
        (if_rule (λ y. y ≡ x) (not (to_spare r.state chunk_sectors mark for_write row)) (λ _. refl)
          (λ _. ap (runtime left) d ∙ self_loop left x r e d))

  -- A disk with no entry stays.
  stays : (left x : ℕ) → find_reb reb x ≡ none → runtime left x ≡ x
  unfolding redirect_from
  stays zero x e = refl
  stays (suc left) x e = rw (e, redirect_from) refl

  redirect_from-resolve_from :
      (left c : ℕ)
      → runtime left (disk ge row c) ≡ (resolve_from ge asn ms row left c (disk ge row c)).disk
  unfolding redirect_from resolve_from
  redirect_from-resolve_from zero c = refl
  redirect_from-resolve_from (suc left) c =
      step (find_reb reb (disk ge row c)) (find_disk asn (disk ge row c) 0) refl refl
        (finds for_write mark_rows reb (disk ge row c) 0 quiet) (redirect_from-resolve_from left)
    where
      step :
          (fr : Option Reb) (fd : Option (ℕ × Assign))
          → find_reb reb (disk ge row c) ≡ fr
          → find_disk asn (disk ge row c) 0 ≡ fd
          → Both for_write mark_rows 0 ms fr fd
          → ((d : ℕ)
              → runtime left (disk ge row d)
                ≡ (resolve_from ge asn ms row left d (disk ge row d)).disk)
          → runtime (suc left) (disk ge row c)
            ≡ (resolve_from ge asn ms row (suc left) c (disk ge row c)).disk
      step none (some _) e1 e2 b rest = elim b [ ]
      step (some _) none e1 e2 b rest = elim b [ ]
      step none none e1 e2 neither rest = rw (e1, e2, redirect_from, resolve_from) refl
      step (some _) (some _) e1 e2 (found j r em ec) rest =
          let index : at ms (0 + j) ≡ mark_of for_write mark_rows r.state =
            ap (at ms) (from_zero j) ∙ em in
          let cov : not (to_spare r.state chunk_sectors mark for_write row)
              ≡ leb (at ms (0 + j)) row =
            covers r.state ec ∙ ap (λ b. leb b row) (sym index) in
          elim (Bool-cases (leb (at ms (0 + j)) row)) [
            | inl stops ↦ rw (e1, e2, cov, stops, redirect_from, resolve_from) refl
            | inr goes ↦ elim (Bool-cases (u32 (gcols ge + r.spare) == c)) [
              | inl self ↦
                  let at_c : u32 (gcols ge + r.spare) ≡ c = (==_iff _ _).0 self in
                  rw (e1, e2, cov, goes, self, redirect_from, resolve_from)
                    (ap (λ d. runtime left (disk ge row d)) at_c
                      ∙ self_loop left (disk ge row c) r e1 (ap (disk ge row) at_c))
              | inr on ↦
                  rw (e1, e2, cov, goes, on, redirect_from, resolve_from)
                    (rest (u32 (gcols ge + r.spare)))
            ]
          ]

  -- `raidkm_dcl_redirect` of the disk of a column ends on the disk where `dcl_resolve` of the shared
  -- core ends, for reads and for writes, where no entry is copying back and the mark in sectors is
  -- that in rows.
  pub redirect-resolve :
      (c : ℕ)
      → redirect ge reb chunk_sectors mark row for_write (disk ge row c)
        ≡ (resolve ge asn ms row c).disk
  unfolding redirect resolve
  redirect-resolve c =
      let walk =
        redirect_from-resolve_from (length reb + 1) c
        ∙ ap (λ n. (resolve_from ge asn ms row (n + 1) c (disk ge row c)).disk)
            (sym (length-assigns reb)) in
      if_rule (λ y. y ≡ (resolve ge asn ms row c).disk) (length reb == 0)
        (λ empty.
          sym (stays (length reb + 1) (disk ge row c) (no_entries reb (disk ge row c) empty))
          ∙ walk)
        (λ _. walk)

find_spare-eq :
    (reb : List Reb) (j i : ℕ)
    → ((find_reb_spare reb j ≡ none) × (find_spare (assigns reb) j i ≡ none))
      ⊎ ((r : Reb) × (k : ℕ) × (find_reb_spare reb j ≡ some r)
          × (find_spare (assigns reb) j i ≡ some (k, record { disk = r.disk; spare = r.spare })))
unfolding find_reb_spare find_spare assigns
find_spare-eq [] j i = inl (refl, refl)
find_spare-eq (r ∷ reb) j i = elim (Bool-cases (r.spare == j)) [
  | inl e ↦ inr (r, i, rw (e, find_reb_spare) refl, rw (e, find_spare) refl)
  | inr e ↦ elim (find_spare-eq reb j (suc i)) [
    | inl (none_here, none_there) ↦
        inl (rw (e, find_reb_spare) none_here, rw (e, find_spare) none_there)
    | inr (r', k, here, there) ↦ inr (r', k, rw (e, find_reb_spare) here, rw (e, find_spare) there)
  ]
]

module _ (ge : Geom) (reb : List Reb) (row : ℕ) where
  root_from-eq :
      (left x : ℕ) → runtime_root_from ge reb row left x ≡ root_from ge (assigns reb) row left x
  unfolding runtime_root_from root_from
  root_from-eq zero x = refl
  root_from-eq (suc left) x =
      let c = lcol ge row x in
      elim (find_spare-eq reb (u32 (c + 2 ^ 32 - gcols ge)) 0) [
        | inl (e1, e2) ↦ rw (e1, e2, runtime_root_from, root_from) refl
        | inr (r, k, e1, e2) ↦
            rw (e1, e2, runtime_root_from, root_from)
              (ap (λ b. if ltb c (gcols ge) then some c else b) (root_from-eq left r.disk))
      ]

  -- `raidkm_dcl_chain_root` is `dcl_chain_root` of the shared core, at every disk and row.
  pub runtime_root-chain_root :
      (x : ℕ) → runtime_root ge reb row x ≡ chain_root ge (assigns reb) row x
  unfolding runtime_root chain_root
  runtime_root-chain_root x =
      root_from-eq (length reb + 1) x
      ∙ ap (λ n. root_from ge (assigns reb) row (n + 1) x) (sym (length-assigns reb))
