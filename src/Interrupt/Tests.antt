-- ===== src/Interrupt/Tests.antt =====
-- The theorems on the bottom halves at concrete runs.
use linux_foundation_embedde.Base.{
  ◌+◌, ◌≡◌, true, false, [], ◌∷◌, refl, arith, to_int, here, next, Chain, ℕ, List,
}
use linux_foundation_embedde.Interrupt.Improved
use linux_foundation_embedde.Interrupt.OneThread
use linux_foundation_embedde.Interrupt.Uio

-- Two interrupts, and the seven accesses of the tasklet that handles both.
abbrev served : Improved.State
served = record {
  counter_th = 2;
  counter_bh = 2;
  nevents = 0;
  catchup = 1;
  jiffies = 6;
  scheduled = false;
  pc = Improved.Pc.idle;
}

serving : Chain Improved.Step Improved.my_init served
unfolding Improved.my_interrupt Improved.t_fun
serving =
    next
      (next
        (next
          (next
            (next
              (next
                (next
                  (next (next here (Improved.Step.interrupt 5 _ (omega arith)))
                    (Improved.Step.interrupt 6 _ (omega arith)))
                  (Improved.Step.tasklet _))
                (Improved.Step.tasklet _))
              (Improved.Step.tasklet _))
            (Improved.Step.tasklet _))
          (Improved.Step.tasklet _))
        (Improved.Step.tasklet _))
      (Improved.Step.tasklet _)

improved_loses_nothing_example : (served.nevents ≡ 0) × (served.counter_bh ≡ served.counter_th)
improved_loses_nothing_example = Improved.improved_loses_nothing serving refl refl

abbrev started : Improved.State
started = record {
  counter_th = 4;
  counter_bh = 1;
  nevents = 3;
  catchup = 0;
  jiffies = 6;
  scheduled = false;
  pc = Improved.Pc.entered;
}

t_fun_drains_example :
    Improved.run 9 started
    ≡ record started { counter_bh = 4; nevents = 0; catchup = 2; pc = Improved.Pc.idle }
t_fun_drains_example = Improved.t_fun_drains 2 started refl refl (omega arith) (omega arith)

-- Two interrupts, and a reader that has taken both events.
abbrev asleep_all : (ℕ → Uio.Reader) → ℕ → Uio.Reader
asleep_all readers = readers

abbrev two_events : Uio.State
two_events = Uio.my_interrupt asleep_all (Uio.my_interrupt asleep_all Uio.initial)

abbrev took : Uio.State
took = Uio.mycdrv_read 3 false true (
    Uio.mycdrv_read 3 false true
      (Uio.mycdrv_read 3 false true (Uio.mycdrv_read 3 false true two_events)))

taking_two : Chain (Uio.Step asleep_all) Uio.initial took
taking_two =
    next
      (next
        (next
          (next (next (next here (Uio.Step.interrupt Uio.initial)) (Uio.Step.interrupt _))
            (Uio.Step.read 3 false true _))
          (Uio.Step.read 3 false true _))
        (Uio.Step.read 3 false true _))
      (Uio.Step.read 3 false true _)

uio_accounts_example : to_int (took.nevents + took.taken) ≡ took.interrupts
uio_accounts_example = Uio.uio_accounts asleep_all taking_two

-- The thread waits, and an interrupt comes while it is stopped.
abbrev stopping : List OneThread.Event
stopping =
    OneThread.ran
    ∷ OneThread.interrupted 7
    ∷ OneThread.ran
    ∷ OneThread.ran
    ∷ OneThread.ran
    ∷ OneThread.ran
    ∷ []

thread_stops_example :
    (OneThread.run stopping (OneThread.my_exit OneThread.my_init)).pc ≡ OneThread.Pc.finished
thread_stops_example = OneThread.thread_stops stopping OneThread.my_init (omega arith)
