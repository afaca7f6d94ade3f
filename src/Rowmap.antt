-- ===== src/Rowmap.antt =====
-- The row state map: km/raid_km-rowmap.c and km/raid_km_rowmap.h.
pub mod Pack
pub mod State
pub mod Note
pub mod Page
pub mod Member
pub mod Flush
pub mod Safe
pub mod Sync
pub mod Load
pub mod Wait
mod Tests
