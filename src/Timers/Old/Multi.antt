-- ===== src/Timers/Old/Multi.antt =====
-- labs_OLD/lab_multitimer.c of chapter_18_kernel_timers/todo: the accesses of lab_multitimer.c. Its data is two blocks,
-- which are allocated together and freed together, and count as one here;
-- a write that is refused either of them writes through a NULL pointer.
use linux_foundation_embedde.Base.{ℕ, Bool, List, Option}
use linux_foundation_embedde.Timers.Multi.{State}
use linux_foundation_embedde.Timers.Multi

abbrev pub mycdrv_write : (block_allocated : Bool) → State → Option State
mycdrv_write = Multi.mycdrv_write

abbrev pub my_timer_function : List ℕ → List ℕ → State → State
my_timer_function = Multi.kt_fun

abbrev pub my_init : State
my_init = Multi.my_init

abbrev pub exit_ready : State → Bool
exit_ready = Multi.exit_ready
