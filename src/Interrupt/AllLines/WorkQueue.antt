-- ===== src/Interrupt/AllLines/WorkQueue.antt =====
-- chapter_23_deferrable_functions/lab_all_workqueue.c: one work counts for all lines, on the line of
-- the last interrupt.
pub mod Behind
use linux_foundation_embedde.Base.{
  ℕ, zero, suc, ◌+◌, ◌^◌, ◌≤◌, ◌<◌, ◌≡◌, ◌≢◌, Bool, true, false, if◌then◌else◌, to_int, arith, refl,
  subst, Chain, Chain-invariant,
}
use native.Mathlib.Decide.{dec_lt}
use linux_foundation_embedde.Interrupt.AllLines
use linux_foundation_embedde.Interrupt.AllLines.{
  update, max_irqs, get_irqs, get_irqs_lem, get_irqs_zero, unloaded,
}

-- Where the work stands: not running; called by the kernel; with the line that it read.
pub data Pc : Type 0 where
  idle called : Pc
  counting : (irq : ℕ) → Pc

-- The arrays, `my_data.irq`, the bit that schedule_work sets and the kernel clears before it calls the
-- work, and the work.
pub record State : Type 0 where
  pub arrays : AllLines.State
  pub irq : ℕ
  pub queued : Bool
  pub pc : Pc

unfoldable pub my_interrupt : ℕ → State → State
my_interrupt irq s = record s {
  arrays = record s.arrays {
    interrupts = update s.arrays.interrupts irq (to_int (s.arrays.interrupts irq + 1));
  };
  irq = irq;
  queued = true;
}

-- The next access of the work, which the kernel calls if it is queued, once at a time.
advance : Pc → State → State
advance idle s = if s.queued then record s { queued = false; pc = called } else s
advance called s = record s { pc = counting s.irq }
advance (counting irq) s = record s {
  arrays = record s.arrays { bhs = update s.arrays.bhs irq (to_int (s.arrays.bhs irq + 1)) };
  pc = idle;
}

unfoldable pub w_fun : State → State
unfolding advance
w_fun s = advance s.pc s

abbrev pub loaded : (granted : ℕ → Bool) → State
loaded granted = record {
  arrays = get_irqs granted max_irqs 0 unloaded;
  irq = 0;
  queued = false;
  pc = idle;
}

-- An interrupt that comes between the call of the work and its look at the line is counted twice: by
-- this call and by the next one; and the event that the work was called for is not counted.
all_work_counts_twice :
    (i j : ℕ) (s : State)
    → s.pc ≡ called
    → s.irq ≡ i
    → i ≢ j
    → let t = w_fun (w_fun (my_interrupt j s)) in
      let r = w_fun (w_fun (w_fun t)) in
      (t.arrays.bhs j ≡ to_int (s.arrays.bhs j + 1))
      × (r.arrays.bhs j ≡ to_int (s.arrays.bhs j + 2))
      × (r.arrays.interrupts j ≡ to_int (s.arrays.interrupts j + 1))
      × (r.arrays.bhs i ≡ s.arrays.bhs i)
unfolding my_interrupt w_fun
all_work_counts_twice i j s e f differ = ground arith

-- The sum of an array over the lines that were granted, below the line `k`.
unfoldable pub total : (granted : ℕ → Bool) (f : ℕ → ℕ) → (k : ℕ) → ℕ
total granted f zero = 0
total granted f (suc k) = (if granted k then f k else 0) + total granted f k

module _ (granted : ℕ → Bool) where
  -- Interrupts come on the lines that were granted, fewer than 2 ^ 31 in all.
  pub data Step : State → State → Type 0 where
    interrupt :
        (irq : ℕ) (s : State)
        → irq < max_irqs
        → granted irq ≡ true
        → total granted s.arrays.interrupts max_irqs + 1 < 2 ^ 31
        → Step s (my_interrupt irq s)
    work : (s : State) → Step s (w_fun s)
