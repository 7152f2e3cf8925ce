-- ===== src/Timers/OnePeriodic.antt =====
-- chapter_18_kernel_timers/todo/lab_periodic_timer.c: one timer that starts itself again. It keeps the time of
-- its start, where lab_periodic_timers.c sets it anew at each expiration.
use linux_foundation_embedde.Base.{
  ℕ, ◌+◌, ◌*◌, ◌^◌, ◌≤◌, ◌<◌, ◌≡◌, ◌↔◌, Bool, true, List, [], ◌∷◌, add64, sub64, arith, refl, Chain,
  Chain-invariant,
}
use linux_foundation_embedde.Kernel.Ledger.{
  acquire, release, operate, kfree, memory, timer, Run, ◌>>=◌, ◌>>◌, return, call, ask, settle,
  Status, success, insmod_rmmod, IsBalanced,
}
use linux_foundation_embedde.Timers.Periodic.{KtData}

-- The timer function, when the kernel calls it at `jiffies`.
unfoldable pub ktfun : (jiffies : ℕ) → KtData → KtData
ktfun jiffies d = record d {
  elapsed = sub64 jiffies d.start_time ∷ d.elapsed;
  expires = add64 jiffies d.period;
}

-- What my_init makes: two seconds of `hz` ticks.
unfoldable pub setup : (jiffies hz : ℕ) → KtData
setup jiffies hz = record {
  period = 2 * hz;
  start_time = jiffies;
  expires = add64 jiffies (2 * hz);
  elapsed = [];
}

-- The kernel runs a timer when it has expired or later, before `jiffies` wraps.
pub data Step : KtData → KtData → Type 0 where
  expire :
      (jiffies : ℕ) (d : KtData)
      → d.expires ≤ jiffies
      → jiffies + d.period < 2 ^ 64
      → Step d (ktfun jiffies d)

-- The values printed, the last one first: each is a period or more above the one before, and the first one is
-- at least a period.
abbrev pub AreSpaced : (period : ℕ) → List ℕ → Type 0
AreSpaced period [] = Unit {0}
AreSpaced period (x ∷ []) = period ≤ x
AreSpaced period (x ∷ y ∷ rest) = (y + period ≤ x) × AreSpaced period (y ∷ rest)

-- The last value printed, or 0.
abbrev last_printed : List ℕ → ℕ
last_printed [] = 0
last_printed (x ∷ rest) = x

AreSpaced-cons :
    (period x : ℕ) (l : List ℕ)
    → last_printed l + period ≤ x
    → AreSpaced period l
    → AreSpaced period (x ∷ l)
AreSpaced-cons period x [] h a = omega arith
AreSpaced-cons period x (y ∷ rest) h a = (h, a)

record Inv (start period : ℕ) (d : KtData) : Type 0 where
  same : d.period ≡ period
  begun : d.start_time ≡ start
  next : d.expires ≡ start + last_printed d.elapsed + period
  fits : start + last_printed d.elapsed + period < 2 ^ 64
  spaced : AreSpaced period d.elapsed

Step-Inv : (start period : ℕ) (d e : KtData) → Step d e → Inv start period d → Inv start period e
unfolding ktfun
Step-Inv start period d e (expire jiffies _ h k) v = record {
  same = v.same;
  begun = v.begun;
  next = omega (arith, v.same, v.begun, v.next);
  fits = omega (arith, v.same, v.begun, v.next);
  spaced =
      AreSpaced-cons period _ d.elapsed (omega (arith, v.same, v.begun, v.next, v.fits)) v.spaced;
}

-- The times that the timer prints, counted from its start, are each a period or more above the one before,
-- however late the kernel runs it.
pub one_timer-AreSpaced :
    (jiffies hz : ℕ) {d : KtData}
    → jiffies + 2 * hz < 2 ^ 64
    → Chain Step (setup jiffies hz) d
    → AreSpaced (2 * hz) d.elapsed
unfolding setup
one_timer-AreSpaced jiffies hz h c =
    (Chain-invariant (Inv jiffies (2 * hz)) (Step-Inv jiffies (2 * hz)) c (record {
      same = refl;
      begun = refl;
      next = omega arith;
      fits = omega arith;
      spaced = tt;
    })).spaced

-- The block of data is 0, and so is the timer; the answer of kmalloc is not looked at.
unfoldable pub my_init : (allocated : Bool) → Run (Status × Bool)
my_init allocated = do
  data' ← ask (acquire (memory 0)) allocated
  call (operate (memory 0) true)
  call (acquire (timer 0) true)
  return (success, data')

unfoldable pub my_exit : Bool → Run (Unit {0})
my_exit data' = do call (release (timer 0)); call (kfree 0 data')

-- Loading and unloading leave no timer and no block behind exactly if the block could be allocated.
one_timer-IsBalanced_iff :
    (allocated : Bool) → IsBalanced (insmod_rmmod (my_init allocated) my_exit) ↔ (allocated ≡ true)
unfolding my_init my_exit settle
one_timer-IsBalanced_iff allocated = ground arith
