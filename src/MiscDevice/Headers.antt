-- ===== src/MiscDevice/Headers.antt =====
-- The misc device headers of the other chapters, by the functions of misc_dev.h, whose text they repeat.
pub mod DynamicModules
pub mod CharDrivers
pub mod TimerResolution
pub mod BasicIoctls
pub mod Ioctls
pub mod WaitQueue
pub mod Deferrable
pub mod Dma
