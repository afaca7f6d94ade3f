-- ===== src/Dcl/Chain/Resolve.antt =====
-- `dcl_resolve` from a group column: the loop always returns from inside, at a live disk or at an
-- assignment whose mark does not cover the row, and no two columns of a row end at one disk.
use md_kmec.Base.{
  ℕ, zero, suc, ◌+◌, ◌*◌, ◌≤◌, ◌<◌, ◌≡◌, ◌≢◌, refl, sym, ap, ◌∙◌, List, Bool, true, false, none,
  some, at, length, get_elem?-lt, arith, leb, ◌==◌, Option-cases, Bool-cases, inl, inr,
}
use md_kmec.Dcl.Geom.{Geom, IsGeom}
use md_kmec.Dcl.Tables.Inverse.{HasTables}
use md_kmec.Dcl.Map.{disk, lcol}
use md_kmec.Dcl.Map.Bijective.{lcol-disk}
use md_kmec.Dcl.Chain.{Assign, Endpoint, find_disk, spare_col, resolve_from, resolve}
use md_kmec.Dcl.Chain.Walk.{
  AreAssigned, Walk, start, hop, index_at, index_at-hop, found_entry, Walk-lt, meet, Walk-short,
}

-- Why a resolve stops on disk `x`.
pub data Stop (asn : List Assign) (mark : List ℕ) (row x : ℕ) : Bool → Type 0 where
  live : {d : Bool} → d ≡ false → find_disk asn x 0 ≡ none → Stop asn mark row x d
  uncovered :
      {d : Bool} {i : ℕ} {a : Assign}
      → d ≡ true
      → find_disk asn x 0 ≡ some (i, a)
      → at mark i ≤ row
      → Stop asn mark row x d

-- The endpoint lies on the chain of `c`, every hop to it was covered by its mark, and the walk
-- stops there.
pub record IsResolved (ge : Geom) (asn : List Assign) (mark : List ℕ) (row c : ℕ) (r : Endpoint)
    : Type 0 where
  pub hops : ℕ
  pub col : ℕ
  pub walk : Walk ge asn row c hops col
  pub covered : (p : ℕ) → p < hops → row < at mark (index_at row walk p)
  pub at_col : r.disk ≡ disk ge row col
  pub stop : Stop asn mark row r.disk r.dead

module _ {ge : Geom} {asn : List Assign} (v : IsGeom ge) (t : HasTables ge) (w : AreAssigned ge asn)
    (mark : List ℕ) (row : ℕ) where
  module _ (left e : ℕ) where
    resolve_live :
        find_disk asn (disk ge row e) 0 ≡ none
        → resolve_from ge asn mark row (suc left) e (disk ge row e)
          ≡ record { disk = disk ge row e; dead = false }
    unfolding resolve_from
    resolve_live h = ground arith

    module _ {i : ℕ} {a : Assign} (found : find_disk asn (disk ge row e) 0 ≡ some (i, a)) where
      resolve_low :
          leb (at mark i) row ≡ true
          → resolve_from ge asn mark row (suc left) e (disk ge row e)
            ≡ record { disk = disk ge row e; dead = true }
      unfolding resolve_from
      resolve_low h = ground arith

      resolve_hop :
          leb (at mark i) row ≡ false
          → (spare_col ge a == e) ≡ false
          → resolve_from ge asn mark row (suc left) e (disk ge row e)
            ≡ resolve_from ge asn mark row left (spare_col ge a) (disk ge row (spare_col ge a))
      unfolding resolve_from
      resolve_hop h k = ground arith

  resolve_from-IsResolved :
      {c : ℕ} (left n e : ℕ)
      → c < ge.ngroups * ge.g
      → n + left ≡ length asn + 1
      → (walk : Walk ge asn row c n e) → ((p : ℕ) → p < n → row < at mark (index_at row walk p))
      → IsResolved ge asn mark row c (resolve_from ge asn mark row left e (disk ge row e))
  resolve_from-IsResolved zero n e hc s walk cov =
      absurd (omega (arith, Walk-short v t w row hc walk))
  resolve_from-IsResolved {c} (suc left) n e hc s walk cov =
      elim (Option-cases (find_disk asn (disk ge row e) 0)) [
        | inl none_found ↦ rw (resolve_live left e none_found) (record {
          hops = n;
          col = e;
          walk = walk;
          covered = cov;
          at_col = refl;
          stop = live refl none_found;
        })
        | inr ((i, a), found) ↦ elim (Bool-cases (leb (at mark i) row)) [
          | inl low ↦ rw (resolve_low left e found low) (record {
            hops = n;
            col = e;
            walk = walk;
            covered = cov;
            at_col = refl;
            stop = uncovered refl found (ground arith);
          })
          | inr high ↦
              let further = hop walk found refl in
              let differs : (spare_col ge a == e) ≡ false =
                elim (Bool-cases (spare_col ge a == e)) [
                  | inl same ↦
                      absurd (omega (arith, meet v t w row hc hc further walk (ground arith)))
                  | inr p ↦ p
                ] in
              rw (resolve_hop left e found high differs) (
                resolve_from-IsResolved left (suc n) (spare_col ge a) hc (omega arith) further
                  (λ p hp. ground (arith, index_at-hop row walk found refl p, cov p)))
        ]
      ]

  -- From a group column of a valid geometry, `dcl_resolve` walks the chain of spares through
  -- covered assignments only and stops on it: with dead = 0 at a disk that no assignment names, or
  -- with dead = 1 at one whose mark does not cover the row. It never runs out of rounds and never
  -- meets a self-loop.
  pub resolve-IsResolved :
      (c : ℕ) → c < ge.ngroups * ge.g → IsResolved ge asn mark row c (resolve ge asn mark row c)
  unfolding resolve
  resolve-IsResolved c hc =
      resolve_from-IsResolved (length asn + 1) 0 c hc (omega arith) start
        (λ p h. absurd (omega arith))

  -- Two group columns of a row never resolve to one disk.
  pub resolve-ne :
      (c c' : ℕ)
      → c < ge.ngroups * ge.g
      → c' < ge.ngroups * ge.g
      → c ≢ c'
      → (resolve ge asn mark row c).disk ≢ (resolve ge asn mark row c').disk
  resolve-ne c c' hc hc' ne same =
      let r = resolve-IsResolved c hc in
      let r' = resolve-IsResolved c' hc' in
      let cn : ge.ngroups * ge.g ≤ ge.n = omega (arith, v.columns) in
      let disks : disk ge row r.col ≡ disk ge row r'.col = sym r.at_col ∙ same ∙ r'.at_col in
      let e = lcol-disk v row t r.col (Walk-lt v t w row (omega arith) r.walk) in
      let e' = lcol-disk v row t r'.col (Walk-lt v t w row (omega arith) r'.walk) in
      ne (meet v t w row hc hc' r.walk r'.walk (sym e ∙ ap (lcol ge row) disks ∙ e')).1

  -- Where every mark covers the row, as in the write map, a group column resolves to a live disk:
  -- one that no assignment names.
  pub resolve-live :
      (c : ℕ)
      → c < ge.ngroups * ge.g
      → ((i : ℕ) → i < length asn → row < at mark i)
      → let r = resolve ge asn mark row c in (r.dead ≡ false) × (find_disk asn r.disk 0 ≡ none)
  resolve-live c hc covers = by_stop (resolve-IsResolved c hc).stop
    where
      by_stop :
          {x : ℕ} {d : Bool} → Stop asn mark row x d → (d ≡ false) × (find_disk asn x 0 ≡ none)
      by_stop (live d none_found) = (d, none_found)
      by_stop {x} (uncovered {i} {a} d found low) =
          absurd (omega (arith, covers i (get_elem?-lt asn i (found_entry asn x found).0)))
