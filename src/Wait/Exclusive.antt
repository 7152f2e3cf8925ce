-- ===== src/Wait/Exclusive.antt =====
-- chapter_22_sleeping_and_wait_queues/wait_queue/lab_excl.c: exclusive waiters, who count themselves,
-- so that the last one clears `data_ready`.
use linux_foundation_embedde.Base.{
  ℕ, zero, suc, ◌+◌, ◌-◌, ◌^◌, ◌<◌, ◌≡◌, Bool, true, false, ◌==◌, Option, none, some, List, [], ◌∷◌,
  length, if◌then◌else◌, to_int,
}
use linux_foundation_embedde.Wait.{Writer, idle, stored, between, done}

-- Where a reader stands in mycdrv_read: counted and before its test of the flag, asleep, behind the wait and before the
-- spin lock, under the lock and before atomic_dec_and_test, as the one that found zero and has yet to clear the flag,
-- before spin_unlock, before its transfer, and outside of a call.
pub data Reader : Type 0 where
  starting : Reader
  asleep : Reader
  passed : Reader
  locked : Reader
  last : Reader
  unlocking : Reader
  reading : Reader
  finished : Reader

-- `data_ready`, `nsleepers`, whether `nsleepers_lock` is taken, the readers, and where the writer stands.
pub record State : Type 0 where
  pub data_ready : Bool
  pub nsleepers : ℕ
  pub nsleepers_lock : Bool
  pub readers : List Reader
  pub writer : Writer

abbrev pub get_elem? : List Reader → ℕ → Option Reader
get_elem? [] i = none
get_elem? (r ∷ rs) zero = some r
get_elem? (r ∷ rs) (suc i) = get_elem? rs i

abbrev pub set : List Reader → ℕ → Reader → List Reader
set [] i r = []
set (_ ∷ rs) zero r = r ∷ rs
set (q ∷ rs) (suc i) r = q ∷ set rs i r

-- The readers between the two accesses to `nsleepers`.
abbrev pub waits : Reader → ℕ
waits starting = 1
waits asleep = 1
waits passed = 1
waits locked = 1
waits _ = 0

-- The readers between spin_lock and spin_unlock.
abbrev pub holds : Reader → ℕ
holds locked = 1
holds last = 1
holds unlocking = 1
holds _ = 0

abbrev pub waiting : List Reader → ℕ
waiting [] = 0
waiting (r ∷ rs) = waits r + waiting rs

abbrev pub holding : List Reader → ℕ
holding [] = 0
holding (r ∷ rs) = holds r + holding rs

-- The kernel's wait queue: a reader that is woken is still in its wait, and the others stay where they are.
pub record WaitQueue : Type 0 where
  pub wake_up_interruptible : List Reader → List Reader
  pub keeps_waiting : (rs : List Reader) → waiting (wake_up_interruptible rs) ≡ waiting rs
  pub keeps_holding : (rs : List Reader) → holding (wake_up_interruptible rs) ≡ holding rs
  pub keeps_length : (rs : List Reader) → length (wake_up_interruptible rs) ≡ length rs

-- The next access of reader `i`: it counts itself and waits; then it takes the spin lock, or spins while another has it,
-- takes itself off, clears `data_ready` if it found zero, and gives the lock back. `signalled` ends the wait of a sleeper.
read_at : Option Reader → (i : ℕ) → (signalled : Bool) → State → State
read_at none i signalled s = s
read_at (some finished) i signalled s = record s {
  nsleepers = to_int (s.nsleepers + 1);
  readers = set s.readers i starting;
}
read_at (some starting) i signalled s = record s {
  readers = set s.readers i (if s.data_ready then passed else asleep);
}
read_at (some asleep) i signalled s = record s {
  readers = set s.readers i (if signalled then passed else asleep);
}
read_at (some passed) i signalled s =
    if s.nsleepers_lock
    then s
    else record s { nsleepers_lock = true; readers = set s.readers i locked }
read_at (some locked) i signalled s =
    let n = to_int (s.nsleepers + 2 ^ 32 - 1) in
    record s { nsleepers = n; readers = set s.readers i (if n == 0 then last else unlocking) }
read_at (some last) i signalled s = record s {
  data_ready = false;
  readers = set s.readers i unlocking;
}
read_at (some unlocking) i signalled s = record s {
  nsleepers_lock = false;
  readers = set s.readers i reading;
}
read_at (some reading) i signalled s = record s { readers = set s.readers i finished }

unfoldable pub mycdrv_read : (i : ℕ) → (signalled : Bool) → State → State
unfolding read_at
mycdrv_read i signalled s = read_at (get_elem? s.readers i) i signalled s

-- `nsleepers` as my_init sets it, and `n` readers that have not called yet.
fresh : ℕ → List Reader
fresh zero = []
fresh (suc n) = finished ∷ fresh n

unfoldable pub my_init : (n : ℕ) → State
unfolding fresh
my_init n = record {
  data_ready = false;
  nsleepers = 0;
  nsleepers_lock = false;
  readers = fresh n;
  writer = done;
}

module _ (q : WaitQueue) where
  open q use {wake_up_interruptible, keeps_waiting, keeps_holding, keeps_length}

  -- The next access of the writer: it wakes the readers, and sets the flag two seconds later.
  write_at : Writer → State → State
  write_at idle s = record s { writer = stored }
  write_at stored s = record s { readers = wake_up_interruptible s.readers; writer = between }
  write_at between s = record s { data_ready = true; writer = done }
  write_at done s = record s { writer = idle }

  unfoldable pub mycdrv_write : State → State
  unfolding write_at
  mycdrv_write s = write_at s.writer s

  pub data Step : State → State → Type 0 where
    read : (i : ℕ) (signalled : Bool) (s : State) → Step s (mycdrv_read i signalled s)
    write : (s : State) → Step s (mycdrv_write s)

-- The count is right, the lock is free or one reader's, and fewer than 2 ^ 32 readers can wait.
record Inv (s : State) : Type 0 where
  counted : s.nsleepers ≡ waiting s.readers
  exclusive : holding s.readers ≡ (if s.nsleepers_lock then 1 else 0)
  few : length s.readers < 2 ^ 32

-- Where a reader stands behind its next access, if it has the lock and has yet to take itself off: `left` is how many
-- counted readers are left behind that. Any other one stands where it stands.
abbrev pub taken_off : Option Reader → (left : ℕ) → Option Reader → Option Reader
taken_off (some locked) left after = some (if left == 0 then last else unlocking)
taken_off _ left after = after
