-- ===== src/Interrupt/Tasklet.antt =====
-- chapter_23_deferrable_functions/lab_one_tasklet.c: the interrupt handler schedules a tasklet, and
-- both count.
use linux_foundation_embedde.Base.{
  ℕ, ◌+◌, ◌^◌, ◌≤◌, ◌<◌, ◌≡◌, Bool, true, false, arith, to_int, if◌then◌else◌, Chain,
  Chain-invariant,
}

-- `counter_th`, `counter_bh` and `my_data.jiffies`; `scheduled` is the bit of the tasklet that
-- tasklet_schedule sets and the kernel clears before it calls the tasklet.
pub record State : Type 0 where
  pub counter_th : ℕ
  pub counter_bh : ℕ
  pub jiffies : ℕ
  pub scheduled : Bool

unfoldable pub my_interrupt : (now : ℕ) → State → State
my_interrupt now s = record s {
  counter_th = to_int (s.counter_th + 1);
  jiffies = now;
  scheduled = true;
}

unfoldable pub t_fun : State → State
t_fun s = record s { counter_bh = to_int (s.counter_bh + 1) }

abbrev pub initial : State
initial = record { counter_th = 0; counter_bh = 0; jiffies = 0; scheduled = false }

-- An interrupt at any time, before the counter would wrap; and the kernel's call of a scheduled
-- tasklet.
pub data Step : State → State → Type 0 where
  interrupt : (now : ℕ) (s : State) → s.counter_th + 1 < 2 ^ 31 → Step s (my_interrupt now s)
  softirq : (s : State) → s.scheduled ≡ true → Step s (t_fun (record s { scheduled = false }))

pub record Inv (s : State) : Type 0 where
  pub small : s.counter_th < 2 ^ 31
  pub behind : (if s.scheduled then s.counter_bh + 1 else s.counter_bh) ≤ s.counter_th

Step-Inv : (s t : State) → Step s t → Inv s → Inv t
unfolding my_interrupt t_fun
Step-Inv s t (interrupt now _ h) v = ground arith
Step-Inv s t (softirq _ h) v = ground arith

-- In every reachable state the tasklet has run at most as often as there were interrupts, and less
-- often while it is scheduled.
tasklet_behind :
    {s : State}
    → Chain Step initial s
    → (if s.scheduled then s.counter_bh + 1 else s.counter_bh) ≤ s.counter_th
tasklet_behind c =
    (Chain-invariant Inv Step-Inv c (record { small = omega arith; behind = omega arith })).behind

-- Two interrupts before the tasklet runs are counted as one: whatever the state, the run that
-- follows adds one to `counter_bh` where `counter_th` has grown by two, and nothing is scheduled
-- any more.
tasklet_loses_events :
    (s : State) (now later : ℕ)
    → s.counter_th + 2 < 2 ^ 31
    → s.counter_bh + 1 < 2 ^ 31
    → let t = t_fun (record (my_interrupt later (my_interrupt now s)) { scheduled = false }) in
      (t.counter_th ≡ s.counter_th + 2) × (t.counter_bh ≡ s.counter_bh + 1) × (t.scheduled ≡ false)
unfolding my_interrupt t_fun
tasklet_loses_events s now later a b = ground arith
