-- ===== src/Dcl/WindowTests.antt =====
-- Runs of the completion window with four granules of eight sectors, and the theorem there.
use md_kmec.Base.{
  ℕ, zero, suc, ◌*◌, ◌/◌, ◌<◌, ◌≤◌, ◌≡◌, ◌⊎◌, refl, [], ◌∷◌, Bool, true, false, ◌||◌, ◌==◌, ltb,
  u64, arith,
}
use md_kmec.Dcl.Window.{Window, bit, advance, pop_done}
use md_kmec.Dcl.Window.Prefix.{IsSolid, and_done, pop_done-IsSolid}

-- Granules 0, 1 and 3 are done.
abbrev window : Window
window = record { size = 4; base = 2; bits = false ∷ false ∷ false ∷ true ∷ []; mark = 16 }

abbrev done : ℕ → Bool
done x = ltb x 2 || x == 3

window-IsSolid : IsSolid done window
window-IsSolid = record {
  prefix = record {
    size_pos = omega arith;
    room = refl;
    before = λ x h. ground arith;
    inside = inside;
    beyond = λ x h. ground arith;
  };
  stopped = refl;
}
  where
    inside : (x : ℕ) → 2 ≤ x → x < 6 → bit window x ≡ done x
    inside zero lo hi = absurd (omega arith)
    inside (suc zero) lo hi = absurd (omega arith)
    inside (suc (suc zero)) lo hi = refl
    inside (suc (suc (suc zero))) lo hi = refl
    inside (suc (suc (suc (suc zero)))) lo hi = refl
    inside (suc (suc (suc (suc (suc zero))))) lo hi = refl
    inside (suc (suc (suc (suc (suc (suc x)))))) lo hi = absurd (omega arith)

-- Granule 4 completes out of order; then granule 2, and the mark moves past both.
window_run :
    ((pop_done 8 window 32).mark ≡ 16)
    × ((pop_done 8 (pop_done 8 window 32) 16).mark ≡ 40)
    × (pop_done 8 window 8 ≡ window)
unfolding pop_done advance
window_run = (refl, refl, refl)

pop_done-IsSolid_example :
    IsSolid (and_done done (16 / 8)) (pop_done 8 window 16)
    × ((pop_done 8 window 16 ≡ window)
        ⊎ ((pop_done 8 window 16).mark ≡ u64 ((pop_done 8 window 16).base * 8)))
pop_done-IsSolid_example =
    pop_done-IsSolid done 8 16 window window-IsSolid (omega arith) (omega arith)
