-- ===== src/Interrupt/Threaded.antt =====
-- chapter_23_deferrable_functions/lab_one_threaded.c: the handler returns IRQ_WAKE_THREAD, and the
-- kernel's thread of the interrupt line runs thread_fun.
use linux_foundation_embedde.Base.{
  ℕ, ◌+◌, ◌-◌, ◌^◌, ◌<◌, ◌≡◌, Bool, true, false, arith, refl, to_int, ◌==◌, if◌then◌else◌, Chain,
  Chain-invariant,
}

-- Where the thread stands: asleep; at `do`; before atomic_dec_and_test.
pub data Pc : Type 0 where
  idle loop counted : Pc

-- `wake` is what IRQ_WAKE_THREAD sets, and the kernel clears before it calls thread_fun.
pub record State : Type 0 where
  pub counter_th : ℕ
  pub counter_bh : ℕ
  pub nevents : ℕ
  pub wake : Bool
  pub pc : Pc

unfoldable pub my_interrupt : State → State
my_interrupt s = record s {
  counter_th = to_int (s.counter_th + 1);
  nevents = to_int (s.nevents + 1);
  wake = true;
}

abbrev pub my_init : State
my_init = record { counter_th = 0; counter_bh = 0; nevents = 0; wake = false; pc = idle }

advance : Pc → State → State
advance idle s = if s.wake then record s { wake = false; pc = loop } else s
advance loop s = record s { counter_bh = to_int (s.counter_bh + 1); pc = counted }
advance counted s =
    let left = to_int (s.nevents + 2 ^ 32 - 1) in
    if left == 0
    then record s { nevents = left; pc = idle }
    else record s { nevents = left; pc = loop }

-- One access of thread_fun, which the kernel starts if it is to wake.
unfoldable pub thread_fun : State → State
unfolding advance
thread_fun s = advance s.pc s

pub data Step : State → State → Type 0 where
  interrupt : (s : State) → Step s (my_interrupt s)
  thread : (s : State) → Step s (thread_fun s)

abbrev pub in_hand : Pc → ℕ
in_hand counted = 1
in_hand _ = 0

abbrev pub Accounts : State → Type 0
Accounts s = to_int (s.counter_bh + s.nevents) ≡ to_int (s.counter_th + in_hand s.pc)

Step-Accounts : (s t : State) → Step s t → Accounts s → Accounts t
unfolding my_interrupt thread_fun
Step-Accounts s t (interrupt _) v = ground arith
Step-Accounts s t (thread _) v = ground arith

-- In every reachable state the events counted and those left over make up the interrupts, but for
-- one that is counted and about to be taken off (modulo 2 ^ 32).
pub threaded_accounts :
    {s : State}
    → Chain Step my_init s
    → to_int (s.counter_bh + s.nevents) ≡ to_int (s.counter_th + in_hand s.pc)
threaded_accounts c = Chain-invariant Accounts Step-Accounts c refl

-- An interrupt during the last round of the loop is handled twice. The loop takes its event, and
-- then the thread is woken for it with none left over: it counts an event that never was, and takes
-- `nevents` below 0, where the loop does not stop.
threaded_runs_over :
    (s : State)
    → s.pc ≡ loop
    → s.nevents ≡ 1
    → s.counter_bh + 3 < 2 ^ 31
    → s.counter_th + 1 < 2 ^ 31
    → let t = thread_fun (thread_fun (thread_fun (thread_fun (my_interrupt s)))) in
      let r = thread_fun (thread_fun (thread_fun t)) in
      (t.nevents ≡ 0)
      × (t.counter_bh ≡ s.counter_bh + 2)
      × (r.counter_bh ≡ s.counter_bh + 3)
      × (r.counter_th ≡ s.counter_th + 1)
      × (r.nevents ≡ 2 ^ 32 - 1)
      × (r.pc ≡ loop)
unfolding my_interrupt thread_fun
threaded_runs_over s p e a b = ground arith
