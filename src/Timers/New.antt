-- ===== src/Timers/New.antt =====
-- chapter_18_kernel_timers/todo/labs_NEW/lab_periodic_timer.c: the text of labs_OLD/lab_periodic_timer.c.
use linux_foundation_embedde.Base.{ℕ}
use linux_foundation_embedde.Kernel.Ledger.{Run, Status}
use linux_foundation_embedde.Timers.Periodic.{KtData}
use linux_foundation_embedde.Timers.Old.OnePeriodic

abbrev pub ktfun : (jiffies : ℕ) → KtData → KtData
ktfun = OnePeriodic.ktfun

abbrev pub my_init : Run (Status × Unit {0})
my_init = OnePeriodic.my_init

abbrev pub my_exit : Unit {0} → Run (Unit {0})
my_exit = OnePeriodic.my_exit
