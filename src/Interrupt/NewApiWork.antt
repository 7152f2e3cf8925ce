-- ===== src/Interrupt/NewApiWork.antt =====
-- chapter_23_deferrable_functions/lab_workqueue_newapi.c, for kernels from 2.6.36 on: lab_workqueue_private.c with
-- alloc_workqueue in the place of create_workqueue.
use linux_foundation_embedde.Base.{Bool}
use linux_foundation_embedde.Kernel.Ledger.{Run, Status}
use linux_foundation_embedde.Interrupt.WorkQueue
use linux_foundation_embedde.Interrupt.WorkQueue.{State}
use linux_foundation_embedde.Loading.WorkQueue as PrivateQueue

abbrev pub mycdrv_write : State → State
mycdrv_write = WorkQueue.mycdrv_write

abbrev pub w_fun : State → State
w_fun = WorkQueue.w_fun

abbrev pub my_init : (created memory_allocated registered : Bool) → Run (Status × Bool)
my_init = PrivateQueue.my_init

abbrev pub my_exit : Bool → Run (Unit {0})
my_exit = PrivateQueue.my_exit
