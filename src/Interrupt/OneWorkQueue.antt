-- ===== src/Interrupt/OneWorkQueue.antt =====
-- chapter_23_deferrable_functions/lab_one_workqueue.c: the interrupt handler queues one work, and both
-- count.
use linux_foundation_embedde.Base.{
  ℕ, ◌+◌, ◌^◌, ◌<◌, ◌≡◌, Bool, true, false, if◌then◌else◌, to_int, arith, refl, Chain,
  Chain-invariant,
}

-- `counter_th`, `counter_bh` and `my_data.jiffies`; `queued` is the bit of the work that schedule_work
-- sets and the kernel clears before it calls the work; how often schedule_work found it set, as a
-- 32-bit counter.
pub record State : Type 0 where
  pub counter_th : ℕ
  pub counter_bh : ℕ
  pub jiffies : ℕ
  pub queued : Bool
  pub refused : ℕ

-- The kernel's schedule_work, which returns false when the work is queued already.
abbrev schedule_work : State → State
schedule_work s =
    if s.queued then record s { refused = to_int (s.refused + 1) } else record s { queued = true }

unfoldable pub my_interrupt : (now : ℕ) → State → State
my_interrupt now s =
    schedule_work (record s { counter_th = to_int (s.counter_th + 1); jiffies = now })

unfoldable pub w_fun : State → State
w_fun s = record s { counter_bh = to_int (s.counter_bh + 1) }

-- my_init, with the counters that my_generic_init sets to 0.
abbrev pub my_init : State
my_init = record { counter_th = 0; counter_bh = 0; jiffies = 0; queued = false; refused = 0 }

-- An interrupt at any time, and the kernel's call of the work that is queued.
pub data Step : State → State → Type 0 where
  interrupt : (now : ℕ) (s : State) → Step s (my_interrupt now s)
  work : (s : State) → s.queued ≡ true → Step s (w_fun (record s { queued = false }))

abbrev pub waiting : State → ℕ
waiting s = if s.queued then 1 else 0

pub record Inv (s : State) : Type 0 where
  pub accounts : to_int (s.counter_bh + s.refused + waiting s) ≡ s.counter_th
  pub fits : s.counter_th < 2 ^ 32

Step-Inv : (s t : State) → Step s t → Inv s → Inv t
unfolding my_interrupt w_fun
Step-Inv s t (interrupt now _) v = ground arith
Step-Inv s t (work _ q) v = ground arith

-- The events that the work does not count are exactly those that came while it was queued: in every
-- reachable state the runs of the work, the interrupts that found it queued, and the one that waits
-- if it is queued make up the interrupts (modulo 2 ^ 32, as the counters are).
workqueue_accounts :
    {s : State}
    → Chain Step my_init s
    → to_int (s.counter_bh + s.refused + waiting s) ≡ s.counter_th
workqueue_accounts c =
    (Chain-invariant Inv Step-Inv c (record { accounts = refl; fits = omega arith })).accounts
