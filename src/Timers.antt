-- ===== src/Timers.antt =====
-- The timer drivers of chapter_18_kernel_timers.
pub mod Multi
pub mod Resolution
pub mod Probes
pub mod TimerProbes
pub mod Periodic
pub mod OnePeriodic
pub mod HrTimer
pub mod Old
pub mod New
mod Tests
