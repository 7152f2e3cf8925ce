-- ===== src/Wait/Poll.antt =====
-- chapter_22_sleeping_and_wait_queues/todo/lab_poll.c: as lab_wait_event.c, with a poll handler, and
-- with a writer that wakes the readers before it sets `data_ready`.
use linux_foundation_embedde.Base.{ℕ, ◌≡◌, true, false, if◌then◌else◌, arith}
use linux_foundation_embedde.Wait.{
  Reader, starting, asleep, passed, reading, finished, Writer, idle, stored, between, done, State,
  update, WaitQueue,
}

read_at : Reader → ℕ → State → State
read_at starting i s = record s {
  readers = update s.readers i (if s.data_ready then passed else asleep);
}
read_at asleep i s = s
read_at passed i s = record s { data_ready = false; readers = update s.readers i reading }
read_at reading i s = record s { readers = update s.readers i finished }
read_at finished i s = record s { readers = update s.readers i starting }

unfoldable pub mycdrv_read : ℕ → State → State
unfolding read_at
mycdrv_read i s = read_at (s.readers i) i s

-- `mask` is the kernel's POLLIN | POLLRDNORM.
unfoldable pub mycdrv_poll : (mask : ℕ) → State → ℕ
mycdrv_poll mask s = if s.data_ready then mask else 0

module _ (q : WaitQueue) where
  open q use {wake_up_interruptible, wakes}

  write_at : Writer → State → State
  write_at idle s = record s { writer = stored }
  write_at stored s = record s { readers = wake_up_interruptible s.readers; writer = between }
  write_at between s = record s { data_ready = true; writer = done }
  write_at done s = record s { writer = idle }

  unfoldable pub mycdrv_write : State → State
  unfolding write_at
  mycdrv_write s = write_at s.writer s

  -- A wake-up can be lost: if a reader that the writer has woken looks at `data_ready` before the
  -- writer sets it, the reader goes back to sleep, and sleeps on when the write has returned and
  -- `data_ready` is set; poll reports the data meanwhile. It is so from every state in which the
  -- reader sleeps, the flag is not set and the writer is about to wake.
  lost_wakeup :
      (mask i : ℕ) (s : State)
      → s.readers i ≡ asleep
      → s.data_ready ≡ false
      → s.writer ≡ stored
      → let t = mycdrv_write (mycdrv_read i (mycdrv_write s)) in
        (t.readers i ≡ asleep)
        × ((mycdrv_read i t).readers i ≡ asleep)
        × (t.writer ≡ done)
        × (mycdrv_poll mask t ≡ mask)
  unfolding mycdrv_read mycdrv_write mycdrv_poll
  lost_wakeup mask i s a b c = ground (arith, wakes s.readers i a)
