-- ===== src/Snap/Derive.antt =====
-- `rk_sn_derive` of km/raid_km-snapmeta.c: the origin map, the snapshots' rows and the bitmap of used
-- rows, made at assemble from the reverse map that was read, with its checks.
pub mod Loop
pub mod Moved
pub mod Sound
pub mod Result
use md_kmec.Base.{
  ℕ, zero, suc, ◌+◌, ◌-◌, ◌*◌, ◌/◌, ◌%◌, Bool, true, false, not, ◌||◌, Option, none, some, List, [],
  ◌∷◌, ltb, leb, ◌==◌, if◌then◌else◌, Xarray, xa_load, xa_store, update, replicate, length,
}
use md_kmec.Snap.Origin.{Directory, origin, put_origin, leaf_rows}
use md_kmec.Snap.Rmap.{own_origin, own_free, Rmap}
use md_kmec.Snap.State.{Sn, SnapOne, snap_slot}
use md_kmec.Snap.Apply.{keep_row, on_slot}

-- The array and the rows whose home is known to have moved.
pub record Building : Type 0 where
  pub sn : Sn
  pub moved : ℕ → Bool

-- `none` is -EUCLEAN. That the kernel has memory is taken for granted.
abbrev pub Built : Type 0
Built = Option Building

-- A slot is a byte in the source.
abbrev pub slot_byte : ℕ → ℕ
slot_byte owner = (owner + 254) % 256

abbrev pub is_stored : Rmap → ℕ → Bool
is_stored rmap p = elim (xa_load rmap p) [ none ↦ false | some _ ↦ true ]

unfoldable pub derive_free : ℕ → Building → Building
derive_free idx b = record b { sn = record b.sn { used = update b.sn.used idx false } }

unfoldable pub derive_origin : ℕ → ℕ → Building → Building
unfolding put_origin
derive_origin idx row b = record b {
  sn = record b.sn { odir = put_origin b.sn.odir row idx; used = update b.sn.used idx true };
  moved = update b.moved row true;
}

unfoldable pub derive_copy : ℕ → ℕ → ℕ → Building → Building
unfolding on_slot keep_row
derive_copy idx slot row b = record b {
  sn = record b.sn {
    snaps = on_slot slot (keep_row row idx) b.sn.snaps;
    used = update b.sn.used idx true;
  };
}

abbrev pub is_there : List SnapOne → ℕ → Bool
is_there snaps s = elim (snap_slot snaps s) [ none ↦ false | some _ ↦ true ]

-- One entry of the reverse map.
unfoldable pub derive_entry : ℕ → ℕ → ℕ → Building → Built
unfolding derive_free derive_origin derive_copy snap_slot
derive_entry idx owner row b =
    if owner == own_free
    then some (derive_free idx b)
    else if owner == own_origin
    then if leb b.sn.origin_rows row || b.moved row || not (is_stored b.sn.rmap row)
      then none
      else some (derive_origin idx row b)
    else if not (is_there b.sn.snaps (slot_byte owner)) || leb b.sn.origin_rows row
    then none
    else some (derive_copy idx (slot_byte owner) row b)

abbrev pub and_then : Built → (Building → Built) → Built
and_then none f = none
and_then (some b) f = f b

unfoldable pub derive_entries : Rmap → Building → Built
unfolding derive_entry
derive_entries [] b = some b
derive_entries ((idx, (owner, row)) ∷ r) b =
    and_then (derive_entry idx owner row b) (derive_entries r)

-- A row below the origin's end that somebody else has must have moved.
unfoldable pub all_moved : ℕ → (ℕ → Bool) → Rmap → Bool
all_moved rows moved [] = true
all_moved rows moved ((idx, e) ∷ r) =
    let rest = all_moved rows moved r in
    if ltb idx rows then (if moved idx then rest else false) else rest

-- The rows below `n` that are not their own home.
unfoldable pub count_moved : ℕ → Directory → ℕ
count_moved zero odir = 0
count_moved (suc n) odir = count_moved n odir + (if origin odir n == n then 0 else 1)

-- The state at the start: the identity, and only the origin's rows in use.
unfoldable pub derive_start : Sn → Building
derive_start sn = record {
  sn = record sn { used = λ p. ltb p sn.origin_rows };
  moved = λ row. false;
}

unfoldable pub derive_end : Building → Option Sn
unfolding all_moved count_moved
derive_end b =
    if all_moved b.sn.origin_rows b.moved b.sn.rmap
    then some (record b.sn { redirected = count_moved b.sn.origin_rows b.sn.odir })
    else none

abbrev pub ended_by : Built → Option Sn
ended_by none = none
ended_by (some b) = derive_end b

unfoldable pub derive : Sn → Option Sn
unfolding derive_start derive_entries derive_end
derive sn = ended_by (derive_entries sn.rmap (derive_start sn))
