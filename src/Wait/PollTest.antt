-- ===== src/Wait/PollTest.antt =====
-- chapter_22_sleeping_and_wait_queues/todo/lab_poll_test.c: a program that polls the device of lab_poll.c and reads
-- when there is something to read. It is the driver's reader 0, and the only one.
use linux_foundation_embedde.Base.{
  ℕ, zero, suc, ◌≡◌, ◌≢◌, Bool, true, false, ◌==◌, if◌then◌else◌, arith, refl, Chain,
  Chain-invariant,
}
use linux_foundation_embedde.Wait.{
  Reader, starting, asleep, passed, reading, finished, State, WaitQueue, initial,
}
use linux_foundation_embedde.Wait.Poll.{mycdrv_read, mycdrv_write, mycdrv_poll}

-- Where the loop of main stands: before poll, in read, or at its end, which a failed poll is.
pub data Main : Type 0 where
  polls reads exits : Main

pub record Run : Type 0 where
  pub driver : State
  pub main : Main

-- POLLIN | POLLRDNORM.
abbrev pub mask : ℕ
mask = 65

-- Whether the read has returned.
abbrev after_read : Reader → Main
after_read starting = reads
after_read asleep = reads
after_read passed = reads
after_read reading = reads
after_read finished = polls

main_at : (failed : Bool) → Main → State → Run
main_at true polls s = record { driver = s; main = exits }
main_at false polls s = record {
  driver = s;
  main = if mycdrv_poll mask s == 0 then polls else reads;
}
main_at failed reads s = record {
  driver = mycdrv_read 0 s;
  main = after_read ((mycdrv_read 0 s).readers 0);
}
main_at failed exits s = record { driver = s; main = exits }

-- The next access of the program: a poll, which may fail or time out, or one of its read.
unfoldable pub main_step : (failed : Bool) → Run → Run
unfolding main_at
main_step failed r = main_at failed r.main r.driver

abbrev pub start : Run
start = record { driver = initial; main = polls }

-- Outside of a read the program's reader has returned; in one, `data_ready` is set until it is behind the wait.
agrees : Main → Reader → Bool → Bool
agrees polls finished ready = true
agrees polls r ready = false
agrees reads starting ready = ready
agrees reads finished ready = ready
agrees reads asleep ready = false
agrees reads passed ready = true
agrees reads reading ready = true
agrees exits finished ready = true
agrees exits r ready = false

Agrees : Run → Type 0
Agrees r = agrees r.main (r.driver.readers 0) r.driver.data_ready ≡ true

-- The accesses that are left of a read.
abbrev pub reads_left : Reader → ℕ
reads_left finished = 4
reads_left starting = 3
reads_left passed = 2
reads_left reading = 1
reads_left asleep = 0

abbrev pub steps : ℕ → Run → Run
steps zero r = r
steps (suc n) r = steps n (main_step false r)

module _ (q : WaitQueue) where
  pub data Step : Run → Run → Type 0 where
    program : (failed : Bool) (r : Run) → Step r (main_step failed r)
    write : (r : Run) → Step r (record r { driver = mycdrv_write q r.driver })

  Step-Agrees : (r t : Run) → Step r t → Agrees r → Agrees t
  unfolding Agrees agrees main_step mycdrv_read mycdrv_write mycdrv_poll
  Step-Agrees r t (program failed _) h = ground arith
  Step-Agrees r t (write _) h = ground (arith, q.spares r.driver.readers 0)

  -- The program never sleeps in a read: in every reachable state, whatever the order of its accesses and the writer's,
  -- it is not asleep on the wait queue, and when it is in a read, the accesses that are left of the read bring it back
  -- to its next poll.
  pub poll_program_never_sleeps :
      {r : Run}
      → Chain Step start r
      → r.main ≡ reads
      → (r.driver.readers 0 ≢ asleep) × ((steps (reads_left (r.driver.readers 0)) r).main ≡ polls)
  unfolding Agrees agrees main_step mycdrv_read
  poll_program_never_sleeps {r} c e =
      let v = Chain-invariant Agrees Step-Agrees c refl in ground (arith, v)
