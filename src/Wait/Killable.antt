-- ===== src/Wait/Killable.antt =====
-- chapter_22_sleeping_and_wait_queues/todo/lab_killable.c: readers sleep by wait_event_killable, and
-- the writer wakes by wake_up_interruptible. The kernel documents that the latter wakes tasks in
-- interruptible sleep only, and that a killable sleep is not one.
use linux_foundation_embedde.Base.{
  ℕ, ◌≡◌, Bool, true, false, if◌then◌else◌, arith, Chain, Chain-invariant,
}
use linux_foundation_embedde.Wait.{
  Reader, starting, asleep, passed, reading, finished, Writer, idle, stored, between, done, State,
  update,
}

read_at : Reader → ℕ → State → State
read_at starting i s = record s {
  readers = update s.readers i (if s.data_ready then passed else asleep);
}
read_at asleep i s = s
read_at passed i s = record s { data_ready = false; readers = update s.readers i reading }
read_at reading i s = record s { readers = update s.readers i finished }
read_at finished i s = record s { readers = update s.readers i starting }

unfoldable pub mycdrv_read : ℕ → State → State
unfolding read_at
mycdrv_read i s = read_at (s.readers i) i s

-- `wakes` says which sleeping readers the call of wake_up_interruptible reaches.
rouse : Bool → Reader → Reader
rouse true asleep = starting
rouse _ r = r

write_at : (wakes : ℕ → Bool) → Writer → State → State
unfolding rouse
write_at wakes idle s = record s { writer = stored }
write_at wakes stored s = record s { data_ready = true; writer = between }
write_at wakes between s = record s { readers = λ i. rouse (wakes i) (s.readers i); writer = done }
write_at wakes done s = record s { writer = idle }

unfoldable pub mycdrv_write : (wakes : ℕ → Bool) → State → State
unfolding write_at
mycdrv_write wakes s = write_at wakes s.writer s

-- The accesses of the readers and of the writer; no fatal signal.
pub data Step (wakes : ℕ → Bool) : State → State → Type 0 where
  read : (i : ℕ) (s : State) → Step wakes s (mycdrv_read i s)
  write : (s : State) → Step wakes s (mycdrv_write wakes s)

Step-asleep :
    (wakes : ℕ → Bool) (i : ℕ)
    → wakes i ≡ false
    → (s t : State) → Step wakes s t
    → s.readers i ≡ asleep
    → t.readers i ≡ asleep
unfolding mycdrv_read mycdrv_write
Step-asleep wakes i h s t (read j _) a = ground arith
Step-asleep wakes i h s t (write _) a = ground (arith, h)

-- A reader that has gone to sleep is never woken by a write: if wake_up_interruptible does not reach
-- it, as it is in killable sleep, it sleeps after any number of accesses of the writer and of the
-- readers, whatever the state they start from.
killable_sleeps_on :
    (wakes : ℕ → Bool) (i : ℕ)
    → wakes i ≡ false
    → {s t : State} → Chain (Step wakes) s t
    → s.readers i ≡ asleep
    → t.readers i ≡ asleep
killable_sleeps_on wakes i h c a =
    Chain-invariant (λ s. s.readers i ≡ asleep) (Step-asleep wakes i h) c a
