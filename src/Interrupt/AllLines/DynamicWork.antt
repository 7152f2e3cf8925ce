-- ===== src/Interrupt/AllLines/DynamicWork.antt =====
-- chapter_23_deferrable_functions/lab_all_workqueue_dynamic.c: as lab_all_tasklet_dynamic.c, with a work for each
-- interrupt in place of a tasklet.
use linux_foundation_embedde.Base.{ℕ, Bool, Option, List}
use linux_foundation_embedde.Interrupt.AllLines.Dynamic.{State}
use linux_foundation_embedde.Interrupt.AllLines.Dynamic

abbrev pub my_interrupt : (irq : ℕ) (answer : Bool) → State → Option State
my_interrupt = Dynamic.my_interrupt

abbrev pub w_fun : (before : List ℕ) (irq : ℕ) (after : List ℕ) → State → State
w_fun = Dynamic.t_fun
