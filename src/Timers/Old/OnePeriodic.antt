-- ===== src/Timers/Old/OnePeriodic.antt =====
-- labs_OLD/lab_periodic_timer.c of chapter_18_kernel_timers/todo, and its copy in labs_NEW: as lab_periodic_timer.c, with
-- static data.
use linux_foundation_embedde.Base.{ℕ, true, arith}
use linux_foundation_embedde.Kernel.Ledger.{
  acquire, release, timer, Run, ◌>>◌, return, call, Status, success, insmod_rmmod, IsBalanced,
  settle,
}
use linux_foundation_embedde.Timers.Periodic.{KtData}
use linux_foundation_embedde.Timers.OnePeriodic

abbrev pub ktfun : (jiffies : ℕ) → KtData → KtData
ktfun = OnePeriodic.ktfun

abbrev pub setup : (jiffies hz : ℕ) → KtData
setup = OnePeriodic.setup

unfoldable pub my_init : Run (Status × Unit {0})
my_init = do call (acquire (timer 0) true); return (success, tt)

unfoldable pub my_exit : Unit {0} → Run (Unit {0})
my_exit _ = do call (release (timer 0))

-- Without a block that may be missing, loading and unloading always leave nothing behind.
static_timer-IsBalanced : IsBalanced (insmod_rmmod my_init my_exit)
unfolding my_init my_exit settle
static_timer-IsBalanced = ground arith
