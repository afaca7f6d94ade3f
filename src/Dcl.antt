-- ===== src/Dcl.antt =====
-- The declustered-parity map: km/raid_km_dcl.h and km/raid_km-dcl.c.
pub mod Geom
pub mod Perm
pub mod Tables
pub mod Map
pub mod Chain
mod Tests
mod WalkTests
mod WindowTests
pub mod Runtime
pub mod Select
pub mod Block
pub mod Window
