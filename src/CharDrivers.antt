-- ===== src/CharDrivers.antt =====
-- The drivers of chapter_11_character_drivers, each on its own RAM disk.
pub mod Sample
pub mod Blocks
pub mod Improve
pub mod MemoryAllocation
pub mod Cache
pub mod Char
pub mod Dynamic
pub mod Udev
pub mod Misc
pub mod Header
pub mod Versions
mod Tests
