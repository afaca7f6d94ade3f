-- ===== src/Rowmap/State.antt =====
-- km/raid_km_rowmap.h, `struct raidkm_rowmap`, and the accessors `rk_rm_get` and `rk_rm_set` of
-- km/raid_km-rowmap.c. The lock and the work item are not state here: a function is one critical
-- section, and `lazy` says that the delayed write-back is queued.
use md_kmec.Base.{ℕ, ◌*◌, ◌<◌, ◌≤◌, ◌≡◌, List, Bool, true, false, set, length, get_or}
use md_kmec.Rowmap.Pack.{state_in, set_state_in, page_of, rows_per_page, IsMap}

-- The counters that rk_rowmap shows.
pub record Counts : Type 0 where
  pub to_n : ℕ
  pub to_w : ℕ
  pub to_u : ℕ
  pub flushes : ℕ
  pub page_writes : ℕ
  pub write_errors : ℕ
  pub skipped_rows : ℕ
  pub waits : ℕ
  pub promoted : ℕ

pub record Rowmap : Type 0 where
  pub nrows : ℕ
  pub npages : ℕ
  pub chunk_sectors : ℕ
  pub map : List ℕ
  pub dirty : List Bool
  pub rec_skipped : List Bool
  pub need : List ℕ
  pub epoch : ℕ
  pub durable : ℕ
  pub gen : ℕ
  pub id : ℕ
  pub pass_marked : Bool
  pub lazy : Bool
  pub counts : Counts

-- `rk_rm_get`.
unfoldable pub get : Rowmap → ℕ → ℕ
get rm row = state_in rm.map row

-- `rk_rm_set`: the state changes and the row's page is dirty.
unfoldable pub put : Rowmap → ℕ → ℕ → Rowmap
put rm row st = record rm {
  map = set_state_in rm.map row st;
  dirty = set rm.dirty (page_of row) true;
}

abbrev pub is_dirty : Rowmap → ℕ → Bool
is_dirty rm p = get_or rm.dirty p false

abbrev pub need_of : Rowmap → ℕ → ℕ
need_of rm p = get_or rm.need p 0

-- There are rows, and the arrays have the sizes that `raidkm_rowmap_init` allocates.
pub record IsSized (rm : Rowmap) : Type 0 where
  pub some_rows : 0 < rm.nrows
  pub pages : rm.nrows ≤ rm.npages * rows_per_page
  pub bytes : IsMap rm.nrows rm.map
  pub dirty_size : length rm.dirty ≡ rm.npages
  pub need_size : length rm.need ≡ rm.npages
  pub skipped_size : length rm.rec_skipped ≡ rm.nrows
