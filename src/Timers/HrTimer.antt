-- ===== src/Timers/HrTimer.antt =====
-- chapter_18_kernel_timers/todo/lab_hrtimer.c: two timers of high resolution that go on for ever.
use linux_foundation_embedde.Base.{
  length, ℕ, ◌+◌, ◌*◌, ◌≤◌, ◌<◌, ◌≡◌, ◌↔◌, Bool, true, List, [], ◌∷◌, sub64, arith,
}
use linux_foundation_embedde.Kernel.Ledger.{
  acquire, release, operate, kfree, memory, timer, Run, ◌>>=◌, ◌>>◌, return, call, ask, settle,
  Status, success, insmod_rmmod, IsBalanced,
}

-- hrtimer_forward, as the kernel documents it: a timer that has expired is moved by as many intervals as it
-- takes to expire after `now`. What it returns is that number. Times are in nanoseconds.
pub record Forward : Type 0 where
  pub intervals : (expires now interval : ℕ) → ℕ
  pub after :
      (expires now interval : ℕ)
      → 0 < interval
      → expires ≤ now
      → now < expires + intervals expires now interval * interval

-- struct my_data, with the expiration of its timer; `elapsed` are the values that were printed.
pub record MyData : Type 0 where
  pub period : ℕ
  pub period_in_secs : ℕ
  pub start_time : ℕ
  pub expires : ℕ
  pub struct_id : ℕ
  pub elapsed : List ℕ

module _ (f : Forward) where
  -- The timer function at the time `now`, and `jiffies`. It returns HRTIMER_RESTART.
  unfoldable pub my_timer_func : (now jiffies : ℕ) → MyData → MyData
  my_timer_func now jiffies d = record d {
    elapsed = sub64 jiffies d.start_time ∷ d.elapsed;
    start_time = jiffies;
    expires = d.expires + f.intervals d.expires now d.period * d.period;
  }

  -- The kernel runs a timer when it has expired or later.
  pub data Step : MyData → MyData → Type 0 where
    expire : (now jiffies : ℕ) (d : MyData) → d.expires ≤ now → Step d (my_timer_func now jiffies d)

-- ktime_set (secs, 0)
abbrev pub ktime_set : ℕ → ℕ
ktime_set secs = secs * 1000000000

-- What my_init makes of element `i` of the array at the time `now`: the timer is relative.
unfoldable pub setup : (i now jiffies secs : ℕ) → MyData
setup i now jiffies secs = record {
  period = ktime_set secs;
  period_in_secs = secs;
  start_time = jiffies;
  expires = now + ktime_set secs;
  struct_id = b'A' + i;
  elapsed = [];
}

-- The two elements: 1 and 10 seconds.
unfoldable pub data_array : (now now' jiffies jiffies' : ℕ) → MyData × MyData
data_array now now' jiffies jiffies' = (setup 0 now jiffies 1, setup 1 now' jiffies' 10)

-- On the grid of whole periods from a time on, with more periods behind it than it has run.
pub record IsOnGrid (start period : ℕ) (d : MyData) : Type 0 where
  pub same : d.period ≡ period
  pub rounds : ℕ
  pub grid : d.expires ≡ start + rounds * period
  pub enough : length d.elapsed < rounds

-- The array is the block 0, and the timers are 0 and 1; the answer of kmalloc is not looked at.
unfoldable pub my_init : (allocated : Bool) → Run (Status × Bool)
my_init allocated = do
  data' ← ask (acquire (memory 0)) allocated
  call (operate (memory 0) true)
  call (acquire (timer 0) true)
  call (operate (memory 0) true)
  call (acquire (timer 1) true)
  return (success, data')

unfoldable pub my_exit : Bool → Run (Unit {0})
my_exit data' = do call (release (timer 0)); call (release (timer 1)); call (kfree 0 data')

-- Loading and unloading leave no timer and no block behind exactly if the array could be allocated.
hr_timer-IsBalanced_iff :
    (allocated : Bool) → IsBalanced (insmod_rmmod (my_init allocated) my_exit) ↔ (allocated ≡ true)
unfolding my_init my_exit settle
hr_timer-IsBalanced_iff allocated = ground arith
