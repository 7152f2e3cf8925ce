-- ===== src/Timers/Periodic.antt =====
-- chapter_18_kernel_timers/todo/lab_periodic_timers.c: two timers that start themselves again, each
-- with data of its own.
use linux_foundation_embedde.Base.{
  ℕ, ◌+◌, ◌*◌, ◌^◌, ◌≤◌, ◌<◌, ◌≡◌, ◌↔◌, Bool, true, ◌&&◌, List, [], ◌∷◌, add64, sub64, arith, refl,
  Chain, Chain-invariant,
}
use linux_foundation_embedde.Kernel.Ledger.{
  acquire, release, operate, kfree, memory, timer, Run, ◌>>=◌, ◌>>◌, return, call, ask, settle,
  Status, success, insmod_rmmod, IsBalanced,
}

-- struct kt_data, with the `expires` of its timer; `elapsed` are the values that ktfun printed.
pub record KtData : Type 0 where
  pub period : ℕ
  pub start_time : ℕ
  pub expires : ℕ
  pub elapsed : List ℕ

-- The timer function, when the kernel calls it at `jiffies`.
unfoldable pub ktfun : (jiffies : ℕ) → KtData → KtData
ktfun jiffies d = record d {
  elapsed = sub64 jiffies d.start_time ∷ d.elapsed;
  start_time = jiffies;
  expires = add64 d.period jiffies;
}

-- What my_init makes of one of the two: 1 and 10 seconds of `hz` ticks.
unfoldable pub setup : (jiffies hz seconds : ℕ) → KtData
setup jiffies hz seconds = record {
  period = seconds * hz;
  start_time = jiffies;
  expires = add64 jiffies (seconds * hz);
  elapsed = [];
}

-- The kernel runs a timer when it has expired or later, before `jiffies` wraps.
pub data Step : KtData → KtData → Type 0 where
  expire :
      (jiffies : ℕ) (d : KtData)
      → d.expires ≤ jiffies
      → jiffies + d.period < 2 ^ 64
      → Step d (ktfun jiffies d)

abbrev pub AllFrom : ℕ → List ℕ → Type 0
AllFrom n [] = Unit {0}
AllFrom n (x ∷ xs) = (n ≤ x) × AllFrom n xs

pub record Inv (period : ℕ) (d : KtData) : Type 0 where
  pub same : d.period ≡ period
  pub next : d.expires ≡ d.start_time + period
  pub fits : d.start_time + period < 2 ^ 64
  pub late : AllFrom period d.elapsed

Step-Inv : (period : ℕ) (d e : KtData) → Step d e → Inv period d → Inv period e
unfolding ktfun
Step-Inv period d e (expire jiffies _ h k) v = record {
  same = v.same;
  next = omega (arith, v.same);
  fits = omega (arith, v.same);
  late = (omega (arith, v.next, v.fits), v.late);
}

-- Each time that a timer runs it prints at least its period as the time that has passed since it ran
-- before, or was set up: the timers never come early.
never_early :
    (jiffies hz seconds : ℕ) {d : KtData}
    → jiffies + seconds * hz < 2 ^ 64
    → Chain Step (setup jiffies hz seconds) d
    → AllFrom (seconds * hz) d.elapsed
unfolding setup
never_early jiffies hz seconds h c =
    (Chain-invariant (Inv (seconds * hz)) (Step-Inv (seconds * hz)) c
      (record { same = refl; next = omega arith; fits = h; late = tt })).late

-- data_A and data_B are the memory blocks 0 and 1, with the timers 0 and 1; the answers of kmalloc are
-- not looked at before the blocks are written to.
unfoldable pub my_init : (a_allocated b_allocated : Bool) → Run (Status × (Bool × Bool))
my_init a_allocated b_allocated = do
  data_A ← ask (acquire (memory 0)) a_allocated
  data_B ← ask (acquire (memory 1)) b_allocated
  call (operate (memory 0) true)
  call (operate (memory 1) true)
  call (acquire (timer 0) true)
  call (acquire (timer 1) true)
  return (success, (data_A, data_B))

unfoldable pub my_exit : Bool × Bool → Run (Unit {0})
my_exit (data_A, data_B) = do
  call (release (timer 0))
  call (release (timer 1))
  call (kfree 0 data_A)
  call (kfree 1 data_B)

-- Loading and unloading keep to the rules, and leave no timer and no block behind, exactly if both
-- blocks could be allocated.
pub periodic-IsBalanced_iff :
    (a_allocated b_allocated : Bool)
    → IsBalanced (insmod_rmmod (my_init a_allocated b_allocated) my_exit)
      ↔ (a_allocated && b_allocated ≡ true)
unfolding my_init my_exit settle
periodic-IsBalanced_iff a_allocated b_allocated = ground arith
