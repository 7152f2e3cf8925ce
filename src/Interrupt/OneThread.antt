-- ===== src/Interrupt/OneThread.antt =====
-- chapter_23_deferrable_functions/lab_one_thread.c: the interrupt handler counts, and wakes a kernel
-- thread that counts once for each time it finds `cond` set.
use linux_foundation_embedde.Base.{
  ℕ, suc, ◌+◌, ◌-◌, ◌^◌, ◌≤◌, ◌<◌, ◌≡◌, Bool, true, false, ◌||◌, List, [], ◌∷◌, if◌then◌else◌,
  to_int, arith, refl, Chain, Chain-invariant,
}

-- Where the thread stands: at `do`; in wait_event_interruptible; before it looks at `cond`; before it
-- counts; at `while`; returned.
pub data Pc : Type 0 where
  top waiting woken counting bottom finished : Pc

-- `stop` is what kthread_should_stop returns.
pub record State : Type 0 where
  pub counter_th : ℕ
  pub counter_bh : ℕ
  pub jiffies : ℕ
  pub cond : Bool
  pub stop : Bool
  pub pc : Pc

unfoldable pub my_interrupt : (now : ℕ) → State → State
my_interrupt now s = record s { counter_th = to_int (s.counter_th + 1); jiffies = now; cond = true }

-- The next access of the thread. No signal ends the wait of a kernel thread.
advance : Pc → State → State
advance top s = record s { cond = false; pc = waiting }
advance waiting s = if s.stop || s.cond then record s { pc = woken } else s
advance woken s = record s { pc = if s.cond then counting else bottom }
advance counting s = record s { counter_bh = to_int (s.counter_bh + 1); pc = bottom }
advance bottom s = record s { pc = if s.stop then finished else top }
advance finished s = s

unfoldable pub thr_fun : State → State
unfolding advance
thr_fun s = advance s.pc s

-- my_init, with the counters that my_generic_init sets to 0.
abbrev pub my_init : State
my_init = record {
  counter_th = 0;
  counter_bh = 0;
  jiffies = 0;
  cond = true;
  stop = false;
  pc = top;
}

-- kthread_stop, which my_exit calls.
unfoldable pub my_exit : State → State
my_exit s = record s { stop = true }

-- An interrupt at any time, before the counter would wrap; an access of the thread; the stop.
pub data Step : State → State → Type 0 where
  interrupt : (now : ℕ) (s : State) → s.counter_th + 1 < 2 ^ 31 → Step s (my_interrupt now s)
  thread : (s : State) → Step s (thr_fun s)
  exit : (s : State) → Step s (my_exit s)

-- Whether the thread will count, or is about to, for an interrupt that has come.
abbrev pub owes : Pc → (cond : Bool) → Bool
owes waiting cond = cond
owes woken cond = cond
owes counting cond = true
owes _ cond = false

pub record Inv (s : State) : Type 0 where
  pub small : s.counter_th < 2 ^ 31
  pub behind : (if owes s.pc s.cond then s.counter_bh + 1 else s.counter_bh) ≤ s.counter_th

interrupt-Inv :
    (now : ℕ) (s : State) (p : Pc)
    → s.pc ≡ p
    → s.counter_th + 1 < 2 ^ 31
    → Inv s
    → Inv (my_interrupt now s)
unfolding my_interrupt
interrupt-Inv now s top e h v = ground arith
interrupt-Inv now s waiting e h v = ground arith
interrupt-Inv now s woken e h v = ground arith
interrupt-Inv now s counting e h v = ground arith
interrupt-Inv now s bottom e h v = ground arith
interrupt-Inv now s finished e h v = ground arith

advance-Inv : (p : Pc) (s : State) → s.pc ≡ p → Inv s → Inv (advance p s)
unfolding advance
advance-Inv top s e v = ground arith
advance-Inv waiting s e v = ground arith
advance-Inv woken s e v = ground arith
advance-Inv counting s e v = ground arith
advance-Inv bottom s e v = ground arith
advance-Inv finished s e v = ground arith

Step-Inv : (s t : State) → Step s t → Inv s → Inv t
unfolding thr_fun my_exit
Step-Inv s t (interrupt now _ h) v = interrupt-Inv now s s.pc refl h v
Step-Inv s t (thread _) v = advance-Inv s.pc s refl v
Step-Inv s t (exit _) v = record { small = v.small; behind = v.behind }

-- The thread counts no event that was not there: in every reachable state it has counted at most as
-- many events as there were interrupts, and fewer where it is about to count.
one_thread_behind :
    {s : State}
    → Chain Step my_init s
    → (if owes s.pc s.cond then s.counter_bh + 1 else s.counter_bh) ≤ s.counter_th
one_thread_behind c =
    (Chain-invariant Inv Step-Inv c (record { small = omega arith; behind = omega arith })).behind

-- What happens while my_exit waits for the thread.
pub data Event : Type 0 where
  interrupted : (now : ℕ) → Event
  ran : Event

unfoldable pub run : List Event → State → State
run [] s = s
run (interrupted now ∷ events) s = run events (my_interrupt now s)
run (ran ∷ events) s = run events (thr_fun s)

abbrev pub runs : List Event → ℕ
runs [] = 0
runs (interrupted now ∷ events) = runs events
runs (ran ∷ events) = suc (runs events)

-- How many accesses the thread is from its end, once it is to stop.
abbrev rank : Pc → ℕ
rank top = 5
rank waiting = 4
rank woken = 3
rank counting = 2
rank bottom = 1
rank finished = 0

rank-thr_fun :
    (p : Pc) (s : State)
    → s.pc ≡ p
    → s.stop ≡ true
    → ((thr_fun s).stop ≡ true) × (rank (thr_fun s).pc ≤ rank p - 1)
unfolding thr_fun advance
rank-thr_fun top s e h = ground arith
rank-thr_fun waiting s e h = ground arith
rank-thr_fun woken s e h = ground arith
rank-thr_fun counting s e h = ground arith
rank-thr_fun bottom s e h = ground arith
rank-thr_fun finished s e h = ground arith

rank-zero : (p : Pc) → rank p ≤ 0 → p ≡ finished
rank-zero top h = absurd (omega arith)
rank-zero waiting h = absurd (omega arith)
rank-zero woken h = absurd (omega arith)
rank-zero counting h = absurd (omega arith)
rank-zero bottom h = absurd (omega arith)
rank-zero finished h = refl

stops_by_rank :
    (events : List Event) (s : State)
    → s.stop ≡ true
    → rank s.pc ≤ runs events
    → (run events s).pc ≡ finished
unfolding run my_interrupt
stops_by_rank [] s h few = rank-zero s.pc few
stops_by_rank (interrupted now ∷ events) s h few = stops_by_rank events (my_interrupt now s) h few
stops_by_rank (ran ∷ events) s h few =
    let (h', less) = rank-thr_fun s.pc s refl h in
    stops_by_rank events (thr_fun s) h' (omega (arith, less))

rank-le : (p : Pc) → rank p ≤ 5
rank-le top = omega arith
rank-le waiting = omega arith
rank-le woken = omega arith
rank-le counting = omega arith
rank-le bottom = omega arith
rank-le finished = omega arith

-- The module can be unloaded: from whatever state my_exit stops the thread in, and whatever
-- interrupts come meanwhile, the thread returns within five of its accesses.
pub thread_stops :
    (events : List Event) (s : State) → 5 ≤ runs events → (run events (my_exit s)).pc ≡ finished
unfolding my_exit
thread_stops events s enough = stops_by_rank events (my_exit s) refl (omega (arith, rank-le s.pc))
