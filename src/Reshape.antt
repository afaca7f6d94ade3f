-- ===== src/Reshape.antt =====
-- The reshape's journal and row layouts: km/raid_km-reshape.c and km/raid_km_reshape.h.
pub mod Journal
mod Tests
