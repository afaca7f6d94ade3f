-- ===== src/Snap/Journal.antt =====
-- The journal of km/raid_km-snapmeta.c: `rk_sn_commit_fn` packs a batch of operations into records,
-- writes them and applies them; `rk_sn_replay` reads the records at assemble and applies what is in
-- them. The page of a record is its body here; the seal and the choice of a copy among the members
-- are those of `rk_sn_get`, which a read of the ring stands for.
pub mod Batch
pub mod Recover
pub mod Replay
pub mod Ring
pub mod Settle
pub mod Ahead
pub mod Crash
