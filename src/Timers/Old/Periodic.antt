-- ===== src/Timers/Old/Periodic.antt =====
-- labs_OLD/lab_periodic_timers.c of chapter_18_kernel_timers/todo: as lab_periodic_timers.c, with a function for each
-- timer and the timers outside of their data.
use linux_foundation_embedde.Base.{ℕ, Bool}
use linux_foundation_embedde.Kernel.Ledger.{Run, Status}
use linux_foundation_embedde.Timers.Periodic.{KtData}
use linux_foundation_embedde.Timers.Periodic

abbrev pub ktfun_a : (jiffies : ℕ) → KtData → KtData
ktfun_a = Periodic.ktfun

abbrev pub ktfun_b : (jiffies : ℕ) → KtData → KtData
ktfun_b = Periodic.ktfun

abbrev pub my_init : (a_allocated b_allocated : Bool) → Run (Status × (Bool × Bool))
my_init = Periodic.my_init

abbrev pub my_exit : Bool × Bool → Run (Unit {0})
my_exit = Periodic.my_exit
