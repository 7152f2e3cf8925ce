-- ===== src/Sysfs.antt =====
-- The sysfs examples of chapter_20_unified_device_model_and_sysfs: three integers behind attribute
-- files, in static variables (kobject_example.c) and in objects of a kset (kset_example.c).
pub mod Attributes
pub mod Statics
pub mod Objects
mod Tests
