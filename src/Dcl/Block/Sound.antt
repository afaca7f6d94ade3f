-- ===== src/Dcl/Block/Sound.antt =====
-- A block that is verified names assignments that the walks can follow.
use md_kmec.Base.{
  ℕ, zero, suc, ◌+◌, ◌≤◌, ◌<◌, ◌≡◌, ◌≢◌, sym, ap, ◌∙◌, List, [], ◌∷◌, Bool, true, false, not, ◌&&◌,
  ◌||◌, some, get_elem?, ltb, leb, ◌==◌, if◌then◌else◌, arith, ℕ_discrete, dec_lt, subst,
}
use md_kmec.Dcl.Geom.{Geom}
use md_kmec.Dcl.Chain.{Assign}
use md_kmec.Dcl.Chain.Walk.{AreAssigned}
use md_kmec.Dcl.Block.{Entry, Block, Array, entry, clashes, in_flight, table_ok, verify_blk}

clashes-false :
    (table : List Entry) (x j left k : ℕ)
    → clashes table x j left k ≡ false
    → (q : ℕ) → k ≤ q
    → q < k + left
    → ((entry table q).disk ≢ x) × ((entry table q).spare ≢ j)
unfolding clashes
clashes-false table x j zero k h q lo hi = absurd (omega arith)
clashes-false table x j (suc left) k h q lo hi =
    let rest : clashes table x j left (k + 1) ≡ false = ground arith in
    elim (ℕ_discrete k q) [
      | yes e ↦
          let here : ((entry table k).disk ≢ x) × ((entry table k).spare ≢ j) = ground arith in
          subst (λ q. ((entry table q).disk ≢ x) × ((entry table q).spare ≢ j)) e here
      | no ne ↦ clashes-false table x j left (k + 1) rest q (omega arith) (omega arith)
    ]

-- What the check of the table says of an entry.
record IsEntry (blk : Block) (i : ℕ) : Type 0 where
  pub disk_in : (entry blk.assign i).disk < blk.pool_disks
  pub spare_in : (entry blk.assign i).spare < blk.spare_cols
  pub apart :
      (q : ℕ)
      → q < i
      → ((entry blk.assign q).disk ≢ (entry blk.assign i).disk)
        × ((entry blk.assign q).spare ≢ (entry blk.assign i).spare)

table_ok-IsEntry :
    (blk : Block) (left i npop : ℕ)
    → table_ok blk left i npop ≡ true
    → (q : ℕ) → i ≤ q
    → q < i + left
    → IsEntry blk q
unfolding table_ok
table_ok-IsEntry blk zero i npop h q lo hi = absurd (omega arith)
table_ok-IsEntry blk (suc left) i npop h q lo hi =
    let e = entry blk.assign i in
    let npop' = if in_flight e.state then npop + 1 else npop in
    let (rest, inside, alone) =
      passes e npop' (table_ok blk left (i + 1) npop') (clashes blk.assign e.disk e.spare i 0) h in
    elim (ℕ_discrete i q) [
      | yes same ↦ subst (IsEntry blk) same (record {
        disk_in = inside.0;
        spare_in = inside.1;
        apart = λ p below.
            clashes-false blk.assign e.disk e.spare i 0 alone p (omega arith) (omega arith);
      })
      | no ne ↦ table_ok-IsEntry blk left (i + 1) npop' rest q (omega arith) (omega arith)
    ]
  where
    passes :
        (e : Entry) (npop' : ℕ) (rest clash : Bool)
        → (if not (e.state == 1) && not (e.state == 2) && not (e.state == 3)
            then false
            else if in_flight e.state && ltb 1 npop'
            then false
            else if leb blk.pool_disks e.disk || leb blk.spare_cols e.spare
            then false
            else if clash
            then false
            else rest)
          ≡ true
        → (rest ≡ true) × ((e.disk < blk.pool_disks) × (e.spare < blk.spare_cols)) × (clash ≡ false)
    passes e npop' rest clash h = ground arith

-- The assignments that are restored from a block of version 3: its first `nassign` entries.
unfoldable pub table_assigns : List Entry → ℕ → ℕ → List Assign
table_assigns table zero i = []
table_assigns table (suc left) i =
    record { disk = (entry table i).disk; spare = (entry table i).spare }
    ∷ table_assigns table left (i + 1)

get_elem-table_assigns :
    (table : List Entry) (left i k : ℕ) (a : Assign)
    → get_elem? (table_assigns table left i) k ≡ some a
    → (k < left) × (a.disk ≡ (entry table (i + k)).disk) × (a.spare ≡ (entry table (i + k)).spare)
unfolding table_assigns
get_elem-table_assigns table zero i k a h = absurd (cc)
get_elem-table_assigns table (suc left) i zero a h =
    let same : record { disk = (entry table i).disk; spare = (entry table i).spare } ≡ a = cc in
    let here : i ≡ i + 0 = omega arith in
    (
      omega arith,
      sym (ap (λ (b : Assign). b.disk) same) ∙ ap (λ q. (entry table q).disk) here,
      sym (ap (λ (b : Assign). b.spare) same) ∙ ap (λ q. (entry table q).spare) here,
    )
get_elem-table_assigns table (suc left) i (suc k) a h =
    let (below, disk, spare) = get_elem-table_assigns table left (i + 1) k a h in
    let next : i + 1 + k ≡ i + suc k = omega arith in
    (
      omega arith,
      disk ∙ ap (λ q. (entry table q).disk) next,
      spare ∙ ap (λ q. (entry table q).spare) next,
    )

module _ (crc32 : Block → ℕ) (mddev : Array) (blk : Block) where
  verify_blk-table :
      verify_blk crc32 mddev blk ≡ true → blk.version ≡ 3 → table_ok blk blk.nassign 0 0 ≡ true
  unfolding verify_blk
  verify_blk-table h three = ground arith

  -- The assignments of a verified block of version 3 are ones that the walks of the core can follow
  -- in a geometry of the block's pool and spare columns: disks of the pool and spare columns, and
  -- none of them twice.
  pub verify_blk-AreAssigned :
      (ge : Geom)
      → verify_blk crc32 mddev blk ≡ true
      → blk.version ≡ 3
      → ge.n ≡ blk.pool_disks
      → ge.s ≡ blk.spare_cols
      → AreAssigned ge (table_assigns blk.assign blk.nassign 0)
  verify_blk-AreAssigned ge h three pool spares =
      let at_entry = λ (q : ℕ) (lt : q < blk.nassign).
        table_ok-IsEntry blk blk.nassign 0 0 (verify_blk-table h three) q (omega arith)
          (omega arith) in
      let plain =
        λ (i : ℕ) (a : Assign) (e : get_elem? (table_assigns blk.assign blk.nassign 0) i ≡ some a).
          from_zero (get_elem-table_assigns blk.assign blk.nassign 0 i a e) in
      record {
        disk_in = λ i a e.
            let (lt, d, s) = plain i a e in omega (arith, d, pool, (at_entry i lt).disk_in);
        spare_in = λ i a e.
            let (lt, d, s) = plain i a e in omega (arith, s, spares, (at_entry i lt).spare_in);
        one_disk = λ i j a b e f same.
            let (lt, d, s) = plain i a e in
            let (lt', d', s') = plain j b f in
            elim (ℕ_discrete i j) [
              | yes is ↦ is
              | no ne ↦ elim (dec_lt i j) [
                | yes below ↦ absurd (((at_entry j lt').apart i below).0 (sym d ∙ same ∙ d'))
                | no above ↦
                    absurd (((at_entry i lt).apart j (omega arith)).0 (sym d' ∙ sym same ∙ d))
              ]
            ];
        one_spare = λ i j a b e f same.
            let (lt, d, s) = plain i a e in
            let (lt', d', s') = plain j b f in
            elim (ℕ_discrete i j) [
              | yes is ↦ is
              | no ne ↦ elim (dec_lt i j) [
                | yes below ↦ absurd (((at_entry j lt').apart i below).1 (sym s ∙ same ∙ s'))
                | no above ↦
                    absurd (((at_entry i lt).apart j (omega arith)).1 (sym s' ∙ sym same ∙ s))
              ]
            ];
      }
    where
      from_zero :
          {k n : ℕ} {x y : ℕ}
          → (k < n) × (x ≡ (entry blk.assign (0 + k)).disk) × (y ≡ (entry blk.assign (0 + k)).spare)
          → (k < n) × (x ≡ (entry blk.assign k).disk) × (y ≡ (entry blk.assign k).spare)
      from_zero {k} (lt, d, s) =
          let plain : 0 + k ≡ k = omega arith in
          (
            lt,
            d ∙ ap (λ q. (entry blk.assign q).disk) plain,
            s ∙ ap (λ q. (entry blk.assign q).spare) plain,
          )
