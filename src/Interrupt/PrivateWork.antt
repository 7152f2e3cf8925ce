-- ===== src/Interrupt/PrivateWork.antt =====
-- chapter_23_deferrable_functions/lab_workqueue_private.c: the handlers of lab_workqueue_shared.c, with
-- queue_work on a queue of the driver in the place of schedule_work. Its loading is in Loading.WorkQueue.
use linux_foundation_embedde.Interrupt.WorkQueue
use linux_foundation_embedde.Interrupt.WorkQueue.{State}

abbrev pub mycdrv_write : State → State
mycdrv_write = WorkQueue.mycdrv_write

abbrev pub w_fun : State → State
w_fun = WorkQueue.w_fun
