-- ===== src/Timers/Tests.antt =====
-- The theorems on the timer drivers at concrete runs.
use linux_foundation_embedde.Base.{
  ℕ, ◌-◌, ◌/◌, ◌≤◌, ◌+◌, ◌*◌, ◌<◌, ◌≡◌, true, false, none, [], ◌∷◌, length, refl, arith, here, next,
  Chain,
}
use native.Mathlib.Nat.{mod-lt, div-add-mod'}
use linux_foundation_embedde.Timers.Multi
use linux_foundation_embedde.Timers.HrTimer
use linux_foundation_embedde.Timers.Old.OneTimer

-- A write, and its timer's expiration.
abbrev expired : Multi.State
expired = record { ntimers = 0; len = 200; waiting = []; allocated = 0; adding = false }

abbrev counting : Multi.State
counting = record { ntimers = 1; len = 100; waiting = []; allocated = 0; adding = true }

abbrev waits : Multi.State
waits = record { ntimers = 1; len = 200; waiting = 100 ∷ []; allocated = 1; adding = false }

runs : Multi.kt_fun [] (100 ∷ []) waits ≡ expired
unfolding Multi.kt_fun
runs = refl

expires : Chain Multi.Step Multi.my_init expired
unfolding Multi.mycdrv_write Multi.kt_fun
expires =
    next {t = waits}
      (next {t = counting}
        (next {t = Multi.my_init} here (Multi.Step.write true Multi.my_init (omega arith) refl))
        (Multi.Step.write true counting (omega arith) refl))
      (Multi.Step.expire [] (100 ∷ []) waits refl)

exit_finds_no_timer_example :
    (length expired.waiting ≡ 0) × (expired.allocated ≡ 0) × (expired.adding ≡ false)
exit_finds_no_timer_example = Multi.exit_finds_no_timer expires (unfold Multi.exit_ready in refl)

-- The timer of one second of lab_hrtimer.c, started at 500 and run late, more than two seconds later.
far_enough :
    (expires now interval : ℕ)
    → 0 < interval
    → expires ≤ now
    → now < expires + ((now - expires) / interval + 1) * interval
far_enough expires now interval pos h =
    grind (arith, mod-lt (now - expires) pos, div-add-mod' (now - expires) interval)

abbrev exact : HrTimer.Forward
exact = record {
  intervals = λ expires now interval. (now - expires) / interval + 1;
  after = far_enough;
}

abbrev run_late : HrTimer.MyData
run_late = HrTimer.my_timer_func exact 2700000000 1205 (HrTimer.setup 0 500 1000 1)

-- One write, and its timer has run.
abbrev one_run : OneTimer.State
one_run = record { len = 200; timer_initd = true; waiting = none; printed = 100 ∷ [] }

ran_once : OneTimer.Run 1 one_run
unfolding OneTimer.mycdrv_write OneTimer.my_timer_function
ran_once = OneTimer.Run.expire 1 _ (OneTimer.Run.write 0 OneTimer.loaded _ OneTimer.Run.load refl)

one_timer_in_order_example :
    (100 ∷ [] ≡ OneTimer.hundreds 1) × ((OneTimer.my_exit one_run).waiting ≡ none)
one_timer_in_order_example = OneTimer.one_timer_in_order ran_once
