-- ===== src/Interrupt/AllLines/Thread.antt =====
-- chapter_23_deferrable_functions/lab_all_thread.c: one thread counts for all lines, on the line that
-- it reads from `my_data`.
use linux_foundation_embedde.Base.{
  ℕ, ◌+◌, ◌≡◌, ◌≢◌, ◌↔◌, Bool, true, false, not, ◌||◌, if◌then◌else◌, to_int, arith,
}
use linux_foundation_embedde.Kernel.Ledger.{
  acquire, release, thread, Run, ◌>>=◌, ◌>>◌, return, call, ask, settle, Status, error,
  insmod_rmmod, IsBalanced,
}
use linux_foundation_embedde.Interrupt.AllLines
use linux_foundation_embedde.Interrupt.AllLines.{update, my_generic_init, my_generic_exit}

-- Where the thread stands: at `do`; with its own `irq`, before it clears `cond`, in the wait, before
-- it looks at `cond`, before it counts; at `while`; returned.
pub data Pc : Type 0 where
  top bottom finished : Pc
  clearing waiting woken counting : (irq : ℕ) → Pc

-- The arrays, `my_data.irq`, `cond`, what kthread_should_stop returns, and the thread.
pub record State : Type 0 where
  pub arrays : AllLines.State
  pub irq : ℕ
  pub cond : Bool
  pub stop : Bool
  pub pc : Pc

unfoldable pub my_interrupt : ℕ → State → State
my_interrupt irq s = record s {
  irq = irq;
  cond = true;
  arrays = record s.arrays {
    interrupts = update s.arrays.interrupts irq (to_int (s.arrays.interrupts irq + 1));
  };
}

-- The next access of the thread.
advance : Pc → State → State
advance top s = record s { pc = clearing s.irq }
advance (clearing irq) s = record s { cond = false; pc = waiting irq }
advance (waiting irq) s = if s.stop || s.cond then record s { pc = woken irq } else s
advance (woken irq) s = record s { pc = if s.cond then counting irq else bottom }
advance (counting irq) s = record s {
  arrays = record s.arrays { bhs = update s.arrays.bhs irq (to_int (s.arrays.bhs irq + 1)) };
  pc = bottom;
}
advance bottom s = record s { pc = if s.stop then finished else top }
advance finished s = s

unfoldable pub thr_fun : State → State
unfolding advance
thr_fun s = advance s.pc s

-- The thread counts an interrupt on the line of the one before: if it waits with line `i` and the next
-- interrupt comes on another line `j`, it adds one to the count of `i` and none to that of `j`.
pub all_thread_counts_stale :
    (i j : ℕ) (s : State)
    → s.pc ≡ waiting i
    → i ≢ j
    → let t = thr_fun (thr_fun (thr_fun (my_interrupt j s))) in
      (t.pc ≡ bottom)
      × (t.arrays.interrupts j ≡ to_int (s.arrays.interrupts j + 1))
      × (t.arrays.bhs i ≡ to_int (s.arrays.bhs i + 1))
      × (t.arrays.bhs j ≡ s.arrays.bhs j)
unfolding my_interrupt thr_fun
all_thread_counts_stale i j s e differ = ground arith

-- my_init and my_exit: the thread is made before the rest. `created` is the answer of kthread_run.
unfoldable pub my_init :
    (created memory_allocated registered_misc array_allocated : Bool) → Run (Status × (Bool × Bool))
unfolding my_generic_init
my_init created memory_allocated registered_misc array_allocated = do
  tsk ← ask (acquire (thread 0)) created
  if not tsk
      then return (error 1, (false, false))
      else my_generic_init memory_allocated registered_misc array_allocated

unfoldable pub my_exit : Bool × Bool → Run (Unit {0})
unfolding my_generic_exit
my_exit g = do call (release (thread 0)); my_generic_exit g

-- Loading and unloading leave nothing behind exactly if the thread could not be made or the device
-- could be registered: the thread stays when the registration fails.
all_thread-IsBalanced_iff :
    (created memory_allocated registered_misc array_allocated : Bool)
    → IsBalanced
        (insmod_rmmod (my_init created memory_allocated registered_misc array_allocated) my_exit)
      ↔ (not created || registered_misc ≡ true)
unfolding my_init my_exit settle
all_thread-IsBalanced_iff created memory_allocated registered_misc array_allocated = ground arith
