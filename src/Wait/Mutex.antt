-- ===== src/Wait/Mutex.antt =====
-- chapter_22_sleeping_and_wait_queues/todo/lab_mutex.c: the same with a mutex, which the kernel
-- requires to be unlocked by the task that locked it, and while it is locked.
use linux_foundation_embedde.Base.{
  ℕ, ◌≡◌, ◌↔◌, Bool, Option, none, some, ◌==◌, if◌then◌else◌, arith, refl,
}

-- The task that holds `my_mutex`.
abbrev pub Owner : Type 0
Owner = Option ℕ

-- What a call comes to: it returns, sleeps, gives up at a signal, or breaks the rules of the mutex.
pub data Outcome : Type 0 where
  returned : Owner → Outcome
  sleeps : Outcome
  busy : Outcome
  breach : Outcome

mutex_lock : ℕ → Owner → Outcome
mutex_lock task none = returned (some task)
mutex_lock task (some _) = sleeps

mutex_unlock : ℕ → Owner → Outcome
mutex_unlock task none = breach
mutex_unlock task (some owner) = if owner == task then returned none else breach

unfoldable pub mycdrv_read : (task : ℕ) (signalled : Bool) → Owner → Outcome
unfolding mutex_lock
mycdrv_read task signalled o = if signalled then busy else mutex_lock task o

unfoldable pub mycdrv_write : (task : ℕ) → Owner → Outcome
unfolding mutex_unlock
mycdrv_write task o = mutex_unlock task o

-- A write follows the rules only by the task that locked the mutex. So the write that should wake a
-- sleeping reader breaks them whenever it comes from another task than the one that loaded the
-- module or read last, and a second write in a row always does.
mutex_write_breach :
    (task other : ℕ) (o : Owner)
    → ((mycdrv_write task o ≡ returned none) ↔ (o ≡ some task)) × (mycdrv_write other none ≡ breach)
unfolding mycdrv_write
mutex_write_breach task other none = (((λ e. cc), λ e. cc), refl)
mutex_write_breach task other (some p) = ground arith
