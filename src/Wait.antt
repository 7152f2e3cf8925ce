-- ===== src/Wait.antt =====
-- The sleeping readers of chapter_22_sleeping_and_wait_queues: any number of readers, and one
-- writer, each of which may call again when its call has returned. The wait queue is the kernel's:
-- a wait looks at its condition, sleeps if it is false, and looks again each time it is woken.
pub mod Event
pub mod Poll
pub mod PollTest
pub mod Killable
pub mod Semaphore
pub mod Mutex
pub mod Exclusive
pub mod Completion
pub mod Messages
mod Tests
use linux_foundation_embedde.Base.{ℕ, ◌≡◌, ◌≢◌, Bool, true, false, ◌==◌, if◌then◌else◌}

-- Where a reader stands: before the wait looks at `data_ready`; asleep; behind the wait; before the
-- transfer; returned.
pub data Reader : Type 0 where
  starting asleep passed reading finished : Reader

-- Where the writer stands: before the transfer; before its first and its second access to the wait
-- queue and the flag; returned.
pub data Writer : Type 0 where
  idle stored between done : Writer

pub record State : Type 0 where
  pub data_ready : Bool
  pub readers : ℕ → Reader
  pub writer : Writer

abbrev pub update : (ℕ → Reader) → ℕ → Reader → ℕ → Reader
update f i r j = if j == i then r else f j

-- The kernel's wait queue, by what is documented of wake_up_interruptible: a sleeper looks at its
-- condition again, and nobody else is disturbed.
pub record WaitQueue : Type 0 where
  pub wake_up_interruptible : (ℕ → Reader) → ℕ → Reader
  pub wakes :
      (readers : ℕ → Reader) (i : ℕ)
      → readers i ≡ asleep
      → wake_up_interruptible readers i ≡ starting
  pub spares :
      (readers : ℕ → Reader) (i : ℕ)
      → readers i ≢ asleep
      → wake_up_interruptible readers i ≡ readers i

-- A signal ends the wait.
abbrev pub interrupted : Reader → Reader
interrupted asleep = passed
interrupted r = r

-- my_init.
abbrev pub initial : State
initial = record { data_ready = false; readers = λ i. finished; writer = done }
