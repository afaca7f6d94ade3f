-- ===== src/Snap.antt =====
-- Native snapshots: km/raid_km-snap.c, km/raid_km-snapmeta.c and km/raid_km_snap.h.
pub mod Origin
pub mod Rmap
pub mod State
pub mod Alloc
pub mod Apply
pub mod View
pub mod Owned
pub mod Redirect
pub mod Destroy
pub mod Create
pub mod Label
pub mod InPlace
pub mod Refine
pub mod Bio
pub mod MapBio
pub mod Discard
pub mod Spares
pub mod Record
pub mod Region
pub mod Derive
pub mod Journal
pub mod Attrs
pub mod Command
mod Tests
mod JournalTests
