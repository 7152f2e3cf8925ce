-- ===== src/Interrupt/WriteTasklet.antt =====
-- chapter_23_deferrable_functions/lab_tasklet.c: lab_workqueue_shared.c with a tasklet in the place of the work.
-- The bit that tasklet_schedule sets is cleared before the tasklet is called, as that of the work is.
use linux_foundation_embedde.Interrupt.WorkQueue
use linux_foundation_embedde.Interrupt.WorkQueue.{State}

abbrev pub mycdrv_write : State → State
mycdrv_write = WorkQueue.mycdrv_write

abbrev pub t_fun : State → State
t_fun = WorkQueue.w_fun

-- `t_data`, before any write.
abbrev pub t_data : State
t_data = WorkQueue.my_init
