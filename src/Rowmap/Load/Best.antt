-- ===== src/Rowmap/Load/Best.antt =====
-- What `rk_rm_load` takes for a page: the newest good copy of a member that is in sync.
use md_kmec.Base.{
  ℕ, zero, suc, ◌%◌, ◌<◌, ◌≡◌, ◌≢◌, refl, List, [], ◌∷◌, Bool, true, false, not, ◌&&◌, ◌||◌, Option,
  none, some, ltb, at, fit, arith, if_rule, Bool-cases, inl, inr, ◌⊎◌, ◌∙◌, ap, get_or-fit,
  get_or-replicate,
}
use md_kmec.Rowmap.Pack.{
  state_u, body_bytes, rows_per_page, page_of, state_in, byte_index, byte_index-lem, field,
}
use md_kmec.Rowmap.Page.{Page, Verdict, good, blank, untrusted, check}
use md_kmec.Rowmap.Member.{Member, Slots, Io, IsIo, usable}
use md_kmec.Rowmap.Member.Writes.{live}
use md_kmec.Rowmap.Load.{Found, all_n, zeroes, load_checked, load_read, load_slots, load_page}
use md_kmec.Rowmap.Safe.{HoldsRow, OnDisk}

-- The row of a page that was copied is the row of the page.
state_in-fit :
    (body : List ℕ) (q : ℕ)
    → q < rows_per_page
    → state_in (fit 0 body_bytes body) q ≡ state_in body q
unfolding state_in
state_in-fit body q h =
    ap (λ b. field b (q % 4))
      (get_or-fit 0 body_bytes body (byte_index q) (omega (arith, byte_index-lem q)))

state_in-all_n : (q : ℕ) → q < rows_per_page → state_in all_n q ≡ 1
unfolding state_in field
state_in-all_n q h =
    let e : at all_n (byte_index q) ≡ 85 =
      get_or-replicate body_bytes 85 (byte_index q) 0 (omega (arith, byte_index-lem q)) in
    rw e (quarter (q % 4) (omega arith))
  where
    quarter : (r : ℕ) → r < 4 → field 85 r ≡ 1
    quarter zero h = refl
    quarter (suc zero) h = refl
    quarter (suc (suc zero)) h = refl
    quarter (suc (suc (suc zero))) h = refl
    quarter (suc (suc (suc (suc r)))) h = absurd (omega arith)

-- There is a member to load from.
unfoldable pub some_live : Slots → Bool
some_live [] = false
some_live (none ∷ slots) = some_live slots
some_live (some m ∷ slots) = live m || some_live slots

module _ (crc32c : List ℕ → ℕ → ℕ → ℕ) {io : Io} (ok : IsIo io) (id r : ℕ) where
  abbrev q : ℕ
  q = r % rows_per_page

  -- A page that was found calls the row used.
  abbrev Fine : Found → Type 0
  Fine f = f.have ≡ true → state_in f.body q ≢ state_u

  abbrev seen : Found → Bool
  seen f = f.have || f.bad

  load_checked-Fine :
      (gen : ℕ) (pg : Page) (f : Found)
      → state_in pg.body q ≢ state_u
      → Fine f
      → let f' = load_checked (good gen) pg f in Fine f' × (seen f' ≡ true)
  unfolding load_checked
  load_checked-Fine gen pg f u fine =
      if_rule (λ (f' : Found). Fine f' × (seen f' ≡ true)) (not f.have || ltb f.best gen)
        (λ _. (λ h. omega (arith, u, state_in-fit pg.body q (omega arith)), refl))
        (λ old. (fine, ground arith))

  load_read-Fine :
      (m : Member) (f : Found)
      → HoldsRow crc32c id r m
      → Fine f
      → let f' = load_read crc32c io id (page_of r) (io.read m (page_of r)) f in
        Fine f' × (seen f' ≡ true)
  unfolding load_read
  load_read-Fine m f holds fine = by_read (io.read m (page_of r)) (λ pg e. ok.reads m (page_of r) e)
    where
      by_page :
          (pg : Page)
          → pg ≡ m.pages (page_of r)
          → let f' = load_read crc32c io id (page_of r) (some pg) f in Fine f' × (seen f' ≡ true)
      by_page pg e =
          let good_page : check crc32c id pg ≡ good holds.gen =
            ap (check crc32c id) e ∙ holds.is_good in
          let u : state_in pg.body q ≢ state_u =
            rw (ap (λ (x : Page). state_in x.body q) e) holds.used_there in
          rw (good_page, load_read) (load_checked-Fine holds.gen pg f u fine)

      by_read :
          (read : Option Page)
          → ((pg : Page) → read ≡ some pg → pg ≡ m.pages (page_of r))
          → let f' = load_read crc32c io id (page_of r) read f in Fine f' × (seen f' ≡ true)
      by_read none h = (fine, ground arith)
      by_read (some pg) h = by_page pg (h pg refl)

  load_checked-seen :
      (v : Verdict) (pg : Page) (f : Found) → seen f ≡ true → seen (load_checked v pg f) ≡ true
  unfolding load_checked
  load_checked-seen (good gen) pg f h =
      if_rule (λ (f' : Found). seen f' ≡ true) (not f.have || ltb f.best gen) (λ _. refl) (λ _. h)
  load_checked-seen blank pg f h = h
  load_checked-seen untrusted pg f h = ground arith

  load_read-seen :
      (read : Option Page) (f : Found)
      → seen f ≡ true
      → seen (load_read crc32c io id (page_of r) read f) ≡ true
  unfolding load_read
  load_read-seen none f h = ground arith
  load_read-seen (some pg) f h = load_checked-seen (check crc32c id pg) pg f h

  load_slots-Fine :
      (slots : Slots) (f : Found)
      → OnDisk crc32c id r slots
      → Fine f
      → (seen f ≡ true) ⊎ (some_live slots ≡ true)
      → let f' = load_slots crc32c io id (page_of r) slots f in Fine f' × (seen f' ≡ true)
  unfolding load_slots some_live
  load_slots-Fine [] f d fine some_seen = (fine, ground arith)
  load_slots-Fine (none ∷ slots) f d fine some_seen =
      load_slots-Fine slots f (record { held = λ i m h l. d.held (suc i) m h l }) fine some_seen
  load_slots-Fine (some m ∷ slots) f d fine some_seen =
      let rest : OnDisk crc32c id r slots = record { held = λ i k h l. d.held (suc i) k h l } in
      elim (Bool-cases (usable m && m.in_sync)) [
        | inl on ↦
            let (fine', seen') = load_read-Fine m f (d.held 0 m refl on) fine in
            rw (on, load_slots)
              (load_slots-Fine slots (load_read crc32c io id (page_of r) (io.read m (page_of r)) f)
                rest fine' (inl seen'))
        | inr off ↦ rw (off, load_slots) (load_slots-Fine slots f rest fine (ground arith))
      ]

  -- A row that every live member holds as used is loaded as used, where there is a live member.
  pub load_page-used :
      (slots : Slots) (gen : ℕ)
      → OnDisk crc32c id r slots
      → some_live slots ≡ true
      → state_in (load_page crc32c io id (page_of r) slots gen).0 q ≢ state_u
  unfolding load_page
  load_page-used slots gen d some_on =
      let start : Found = record { body = zeroes; best = 0; have = false; bad = false } in
      let f = load_slots crc32c io id (page_of r) slots start in
      let (fine, seen') = load_slots-Fine slots start d (λ h. absurd (cc)) (inr some_on) in
      if_rule Used f.have (λ h. fine h)
        (λ no.
          if_rule Used f.bad (λ _. omega (arith, state_in-all_n q (omega arith)))
            (λ b. absurd (ground arith)))
    where
      Used : List ℕ × ℕ → Type 0
      Used x = state_in x.0 q ≢ state_u
