-- ===== src/Interrupt/DynamicWork.antt =====
-- chapter_23_deferrable_functions/lab_one_workqueue_dynamic.c: lab_one_tasklet_dynamic.c with a work for each
-- interrupt in the place of a tasklet. The queue of the kernel runs the works in the order of the interrupts.
use linux_foundation_embedde.Base.{ℕ, Bool, Option}
use linux_foundation_embedde.Interrupt.Dynamic
use linux_foundation_embedde.Interrupt.Dynamic.{State}

abbrev pub my_interrupt : (now : ℕ) (answer : Bool) → State → Option State
my_interrupt = Dynamic.my_interrupt

abbrev pub w_fun : State → State
w_fun = Dynamic.t_fun
