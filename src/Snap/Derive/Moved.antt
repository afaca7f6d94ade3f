-- ===== src/Snap/Derive/Moved.antt =====
-- The check at the end of `rk_sn_derive` in km/raid_km-snapmeta.c.
use md_kmec.Base.{
  ℕ, ◌<◌, ◌≡◌, ◌≢◌, refl, subst, Bool, true, false, some, [], ◌∷◌, ltb, if◌then◌else◌, xa_load,
  arith, ltb_iff, ℕ_discrete,
}
use md_kmec.Snap.Rmap.{Rmap}
use md_kmec.Snap.Derive.{all_moved}

load_rest :
    (idx : ℕ) (d : ℕ × ℕ) (r : Rmap) (p : ℕ) (e : ℕ × ℕ)
    → idx ≢ p
    → xa_load ((idx, d) ∷ r) p ≡ some e
    → xa_load r p ≡ some e
unfolding xa_load
load_rest idx d r p e other l = ground (arith, other, l)

check_lem :
    (a b c : Bool)
    → (if a then (if b then c else false) else c) ≡ true
    → (c ≡ true) × (a ≡ true → b ≡ true)
check_lem true true c e = (e, λ _. refl)
check_lem true false c e = absurd (cc e)
check_lem false b c e = (e, λ f. absurd (cc f))

-- The check at the end: a row below the origin's end with an entry has moved.
pub all_moved_lem :
    (rows : ℕ) (moved : ℕ → Bool) (rmap : Rmap) (p : ℕ) (e : ℕ × ℕ)
    → all_moved rows moved rmap ≡ true
    → p < rows
    → xa_load rmap p ≡ some e
    → moved p ≡ true
unfolding all_moved xa_load
all_moved_lem rows moved [] p e h lt l = absurd (cc l)
all_moved_lem rows moved ((idx, d) ∷ r) p e h lt l =
    let here = check_lem (ltb idx rows) (moved idx) (all_moved rows moved r) h in
    elim (ℕ_discrete idx p) [
      | yes q ↦ subst (λ t. moved t ≡ true) q (here.1 ((ltb_iff idx rows).1 (omega (arith, q, lt))))
      | no q ↦ all_moved_lem rows moved r p e here.0 lt (load_rest idx d r p e q l)
    ]
