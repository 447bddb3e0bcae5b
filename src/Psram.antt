-- ===== src/Psram.antt =====
-- The PSRAM that captures and replays share: its zones (psram_alloc.c), whether the last capture is
-- still there (psram_regions.c), and who holds its bus (bus_owner.c).
pub mod Alloc
pub mod Regions
pub mod Owner
mod Tests
