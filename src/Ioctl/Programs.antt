-- ===== src/Ioctl/Programs.antt =====
-- The programs of chapter_19_ioctls that call the handlers.
pub mod DataTest
pub mod BasicApp
pub mod SignalTest
pub mod VarDataTest
