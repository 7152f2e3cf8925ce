-- ===== src/Wait/Tests.antt =====
-- The theorems on the sleeping readers at concrete runs.
use linux_foundation_embedde.Base.{
  ℕ, ◌≡◌, ◌≢◌, arith, true, false, [], ◌∷◌, refl, here, next, Chain,
}
use linux_foundation_embedde.Wait.{WaitQueue, Reader, asleep, starting, done, State, initial}
use linux_foundation_embedde.Wait.Event
use linux_foundation_embedde.Wait.Exclusive
use linux_foundation_embedde.Wait.Poll
use linux_foundation_embedde.Wait.PollTest
use linux_foundation_embedde.Wait.PollTest.{reads, polls, steps, reads_left}

rouse : Reader → Reader
rouse asleep = starting
rouse r = r

wakes : (r : Reader) → r ≡ asleep → rouse r ≡ starting
unfolding rouse
wakes r e = ground arith

spares : (r : Reader) → r ≢ asleep → rouse r ≡ r
unfolding rouse
spares r e = ground arith

abbrev queue : WaitQueue
queue = record {
  wake_up_interruptible = λ readers i. rouse (readers i);
  wakes = λ readers i. wakes (readers i);
  spares = λ readers i. spares (readers i);
}

-- Reader 3 has gone to sleep, and the writer has set the flag.
abbrev ready : State
ready = Event.mycdrv_write queue (
    Event.mycdrv_write queue
      (Event.mycdrv_write queue (Event.mycdrv_read 3 (Event.mycdrv_read 3 initial))))

reaches : Chain (Event.Step queue) initial ready
reaches =
    next
      (next
        (next (next (next here (Event.Step.read 3 _)) (Event.Step.read 3 _)) (Event.Step.write _))
        (Event.Step.write _))
      (Event.Step.write _)

no_lost_wakeup_example : (Event.mycdrv_write queue ready).readers 3 ≡ starting
no_lost_wakeup_example =
    Event.no_lost_wakeup queue reaches 3 (unfold Event.mycdrv_read Event.mycdrv_write in refl)
      (unfold Event.mycdrv_read Event.mycdrv_write in refl)

-- Of two readers, the first comes after a write and has the spin lock.
abbrev exclusive : Exclusive.WaitQueue
exclusive = record {
  wake_up_interruptible = λ rs. rs;
  keeps_waiting = λ rs. refl;
  keeps_holding = λ rs. refl;
  keeps_length = λ rs. refl;
}

abbrev flagged : Exclusive.State
flagged = record {
  data_ready = true;
  nsleepers = 1;
  nsleepers_lock = true;
  readers = Exclusive.locked ∷ Exclusive.finished ∷ [];
  writer = done;
}

abbrev read_by : ℕ → Exclusive.State → Exclusive.State
read_by i s = Exclusive.mycdrv_read i false s

-- The first reader takes itself off, the second counts itself, and then the first clears the flag: the second goes to
-- sleep behind a write that it should have seen.
flag_cleared_too_late :
    let t = read_by 1 (read_by 0 (read_by 1 (read_by 0 flagged))) in
    (t.data_ready ≡ false)
    × (t.nsleepers ≡ 1)
    × (t.readers ≡ Exclusive.unlocking ∷ Exclusive.asleep ∷ [])
unfolding Exclusive.mycdrv_read
flag_cleared_too_late = (refl, refl, refl)

abbrev written : State → State
written s = Poll.mycdrv_write queue s

-- A write has returned, and the program has polled and has begun to read.
abbrev reported : PollTest.Run
reported = record {
  driver = Poll.mycdrv_read 0 (written (written (written (written initial))));
  main = reads;
}

polled : Chain (PollTest.Step queue) PollTest.start reported
unfolding PollTest.main_step Poll.mycdrv_read Poll.mycdrv_write Poll.mycdrv_poll rouse
polled =
    next
      (next
        (next
          (next (next (next here (PollTest.Step.write PollTest.start)) (PollTest.Step.write _))
            (PollTest.Step.write _))
          (PollTest.Step.write _))
        (PollTest.Step.program false _))
      (PollTest.Step.program false _)

poll_program_never_sleeps_example :
    (reported.driver.readers 0 ≢ asleep)
    × ((steps (reads_left (reported.driver.readers 0)) reported).main ≡ polls)
poll_program_never_sleeps_example = PollTest.poll_program_never_sleeps queue polled refl
