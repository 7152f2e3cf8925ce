-- ===== src/Interrupt/Module.antt =====
-- How the drivers over one interrupt line are loaded and unloaded:
-- chapter_23_deferrable_functions/lab_one_interrupt.h, and lab_one_thread.c, which starts its thread
-- before it.
use linux_foundation_embedde.Base.{ℕ, ◌≡◌, ◌↔◌, arith, Bool, true, not, ◌||◌, if◌then◌else◌}
use linux_foundation_embedde.Kernel.Ledger.{
  acquire, release, irq, thread, Run, ◌>>=◌, ◌>>◌, return, call, ask, settle, Status, success,
  error, insmod_rmmod, IsBalanced,
}

-- `granted` is the answer of request_irq for the line `n`.
unfoldable pub my_generic_init : (n : ℕ) (granted : Bool) → Run (Status × Unit {0})
my_generic_init n granted = do
  ok ← ask (acquire (irq n)) granted
  return (if not ok then error 1 else success, tt)

unfoldable pub my_generic_exit : (n : ℕ) → Unit {0} → Run (Unit {0})
my_generic_exit n _ = call (release (irq n))

-- my_init and my_exit of lab_one_thread.c; `created` is the answer of kthread_run.
unfoldable pub thread_init : (n : ℕ) (created granted : Bool) → Run (Status × Unit {0})
unfolding my_generic_init
thread_init n created granted = do
  tsk ← ask (acquire (thread 0)) created
  if not tsk then return (error 1, tt) else my_generic_init n granted

unfoldable pub thread_exit : (n : ℕ) → Unit {0} → Run (Unit {0})
unfolding my_generic_exit
thread_exit n g = do call (release (thread 0)); my_generic_exit n g

-- Loading and unloading a driver over one line leaves nothing behind.
pub one_interrupt-IsBalanced :
    (n : ℕ) (granted : Bool)
    → IsBalanced (insmod_rmmod (my_generic_init n granted) (my_generic_exit n))
unfolding my_generic_init my_generic_exit settle
one_interrupt-IsBalanced n granted = ground arith

-- The driver with a thread leaves nothing behind exactly if the thread was not created or the line
-- was granted: when only the line is refused, the module is not loaded and its thread runs on.
thread-IsBalanced_iff :
    (n : ℕ) (created granted : Bool)
    → IsBalanced (insmod_rmmod (thread_init n created granted) (thread_exit n))
      ↔ (not created || granted ≡ true)
unfolding thread_init thread_exit settle
thread-IsBalanced_iff n created granted = ground arith
