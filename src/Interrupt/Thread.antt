-- ===== src/Interrupt/Thread.antt =====
-- chapter_23_deferrable_functions/lab_one_thread_improved.c: a kernel thread that sleeps until the
-- interrupt handler sets `cond`, and then handles every event that is left over.
use linux_foundation_embedde.Base.{
  ℕ, ◌+◌, ◌-◌, ◌^◌, ◌<◌, ◌≡◌, ◌⊎◌, Bool, true, false, arith, to_int, ◌==◌, ltb, ◌||◌, if◌then◌else◌,
  Chain, Chain-invariant,
}

-- Where the thread stands: at `do`; in wait_event_interruptible; behind it; at the head of the inner
-- loop; before atomic_dec_and_test; before the increment of `catchup`; at `while`; returned.
pub data Pc : Type 0 where
  top waiting woken loop counted missed bottom finished : Pc

-- `stop` is what kthread_should_stop returns.
pub record State : Type 0 where
  pub counter_th : ℕ
  pub counter_bh : ℕ
  pub nevents : ℕ
  pub catchup : ℕ
  pub jiffies : ℕ
  pub cond : Bool
  pub stop : Bool
  pub pc : Pc

unfoldable pub my_interrupt : (now : ℕ) → State → State
my_interrupt now s = record s {
  nevents = to_int (s.nevents + 1);
  counter_th = to_int (s.counter_th + 1);
  cond = true;
  jiffies = now;
}

-- my_init, with the counters that my_generic_init sets to 0.
abbrev pub my_init : State
my_init = record {
  counter_th = 0;
  counter_bh = 0;
  nevents = 0;
  catchup = 0;
  jiffies = 0;
  cond = true;
  stop = false;
  pc = top;
}

-- kthread_stop, which my_exit calls.
unfoldable pub my_exit : State → State
my_exit s = record s { stop = true }

-- `atomic_read (&nevents) <= 0`, of an `int`.
abbrev pub none_left : ℕ → Bool
none_left n = n == 0 || ltb (2 ^ 31 - 1) n

advance : Pc → State → State
advance top s = record s { cond = false; pc = waiting }
advance waiting s = if s.stop || s.cond then record s { pc = woken } else s
advance woken s =
    if s.stop
    then record s { pc = finished }
    else if none_left s.nevents
    then record s { pc = bottom }
    else record s { pc = loop }
advance loop s = record s { counter_bh = to_int (s.counter_bh + 1); pc = counted }
advance counted s =
    let left = to_int (s.nevents + 2 ^ 32 - 1) in
    if left == 0
    then record s { nevents = left; pc = bottom }
    else record s { nevents = left; pc = missed }
advance missed s = record s { catchup = to_int (s.catchup + 1); pc = loop }
advance bottom s = if s.stop then record s { pc = finished } else record s { pc = top }
advance finished s = s

-- One access of the thread.
unfoldable pub thr_fun : State → State
unfolding advance
thr_fun s = advance s.pc s

-- An interrupt, while fewer than 2 ^ 31 - 1 events are left over; the request to stop; or one access
-- of the thread.
pub data Step : State → State → Type 0 where
  interrupt : (now : ℕ) (s : State) → s.nevents + 1 < 2 ^ 31 → Step s (my_interrupt now s)
  unload : (s : State) → Step s (my_exit s)
  thread : (s : State) → Step s (thr_fun s)

-- The event that the thread has counted and not yet taken off.
abbrev pub in_hand : Pc → ℕ
in_hand counted = 1
in_hand _ = 0

-- In the inner loop there is an event to take.
abbrev pub IsBusy : Pc → ℕ → Type 0
IsBusy loop n = 0 < n
IsBusy counted n = 0 < n
IsBusy missed n = 0 < n
IsBusy _ n = Unit

pub record Inv (s : State) : Type 0 where
  pub few : s.nevents < 2 ^ 31
  pub counted_all : to_int (s.counter_bh + s.nevents) ≡ to_int (s.counter_th + in_hand s.pc)
  pub busy : IsBusy s.pc s.nevents

Step-Inv : (s t : State) → Step s t → Inv s → Inv t
unfolding my_interrupt my_exit thr_fun
Step-Inv s t (interrupt now _ h) v = ground arith
Step-Inv s t (unload _) v = ground arith
Step-Inv s t (thread _) v = ground arith

-- Every interrupt is counted or left over: in every reachable state the events that the thread has
-- counted and those left over make up the interrupts, but for one that it has counted and is about
-- to take off (modulo 2 ^ 32). So when none is left over and the thread is not in its inner loop,
-- all have been counted.
thread_accounts :
    {s : State}
    → Chain Step my_init s
    → to_int (s.counter_bh + s.nevents) ≡ to_int (s.counter_th + in_hand s.pc)
thread_accounts c = (Chain-invariant Inv Step-Inv c (ground arith)).counted_all

-- An interrupt that comes after the inner loop and before `cond` is cleared is not handled: the
-- thread clears `cond`, goes to sleep with the event left over, and stays asleep. It is so in every
-- state at that place, with the module not being unloaded.
late_event_sleeps :
    (now : ℕ) (s : State)
    → s.pc ≡ bottom
    → s.stop ≡ false
    → s.nevents + 1 < 2 ^ 31
    → let t = thr_fun (thr_fun (my_interrupt now s)) in
      (t.nevents ≡ s.nevents + 1) × (t.pc ≡ waiting) × (thr_fun t ≡ t)
unfolding my_interrupt thr_fun
late_event_sleeps now s p q h = ground arith

-- The stop request is answered: from wherever the thread waits or checks, at most three accesses
-- after it the thread has returned.
unload_ends :
    (s : State)
    → (s.pc ≡ waiting) ⊎ (s.pc ≡ woken) ⊎ (s.pc ≡ bottom) ⊎ (s.pc ≡ top)
    → (thr_fun (thr_fun (thr_fun (my_exit s)))).pc ≡ finished
unfolding my_exit thr_fun
unload_ends s h = ground arith
