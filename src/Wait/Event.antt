-- ===== src/Wait/Event.antt =====
-- chapter_22_sleeping_and_wait_queues/todo/lab_wait_event.c: readers sleep until a writer has set
-- `data_ready`.
use linux_foundation_embedde.Base.{
  ℕ, ◌≡◌, true, false, if◌then◌else◌, arith, Chain, Chain-invariant,
}
use linux_foundation_embedde.Wait.{
  Reader, starting, asleep, passed, reading, finished, Writer, idle, stored, between, done, State,
  update, WaitQueue, interrupted, initial,
}

-- The next access of reader `i` in mycdrv_read; behind the return it may call again.
read_at : Reader → ℕ → State → State
read_at starting i s = record s {
  readers = update s.readers i (if s.data_ready then passed else asleep);
}
read_at asleep i s = s
read_at passed i s = record s { data_ready = false; readers = update s.readers i reading }
read_at reading i s = record s { readers = update s.readers i finished }
read_at finished i s = record s { readers = update s.readers i starting }

unfoldable pub mycdrv_read : ℕ → State → State
unfolding read_at
mycdrv_read i s = read_at (s.readers i) i s

module _ (q : WaitQueue) where
  open q use {wake_up_interruptible, wakes, spares}

  -- The next access of the writer in mycdrv_write: the flag is set before the readers are woken.
  write_at : Writer → State → State
  write_at idle s = record s { writer = stored }
  write_at stored s = record s { data_ready = true; writer = between }
  write_at between s = record s { readers = wake_up_interruptible s.readers; writer = done }
  write_at done s = record s { writer = idle }

  unfoldable pub mycdrv_write : State → State
  unfolding write_at
  mycdrv_write s = write_at s.writer s

  pub data Step : State → State → Type 0 where
    read : (i : ℕ) (s : State) → Step s (mycdrv_read i s)
    write : (s : State) → Step s (mycdrv_write s)
    signal :
        (i : ℕ) (s : State)
        → Step s (record s { readers = update s.readers i (interrupted (s.readers i)) })

  -- A reader that sleeps while the flag is set is about to be woken.
  abbrev pub WillWake : State → Type 0
  WillWake s = (i : ℕ) → s.readers i ≡ asleep → s.data_ready ≡ true → s.writer ≡ between

  Step-WillWake : (s t : State) → Step s t → WillWake s → WillWake t
  unfolding mycdrv_read mycdrv_write
  Step-WillWake s t (read i _) w j a b = ground (arith, w j)
  Step-WillWake s t (write _) w j a b = ground (arith, w j, wakes s.readers j, spares s.readers j)
  Step-WillWake s t (signal i _) w j a b = ground (arith, w j)

  -- No wake-up is lost: whatever the order of the steps, of any number of readers and of the signals,
  -- a reader that sleeps while `data_ready` is set sleeps only until the writer's next access, which
  -- wakes it.
  pub no_lost_wakeup :
      {s : State}
      → Chain Step initial s
      → (i : ℕ) → s.readers i ≡ asleep
      → s.data_ready ≡ true
      → (mycdrv_write s).readers i ≡ starting
  unfolding mycdrv_write
  no_lost_wakeup {s} c i a b =
      let w : s.writer ≡ between = Chain-invariant WillWake Step-WillWake c (λ j p q. cc) i a b in
      ground (arith, wakes s.readers i a)
