-- ===== src/Timers/Old.antt =====
-- The timer drivers of chapter_18_kernel_timers/todo/labs_OLD, for kernels before timer_setup.
pub mod OneTimer
pub mod Multi
pub mod Periodic
pub mod OnePeriodic
