-- ===== src/Ioctl/Programs/SignalTest.antt =====
-- chapter_19_ioctls/todo/lab_ioctl_signal_test.c.
use linux_foundation_embedde.Base.{ℕ, ◌≡◌, Option, none, some, List, [], ◌∷◌, to_int, arith, refl}
use linux_foundation_embedde.Ioctl.{Return, returns}
use linux_foundation_embedde.Ioctl.Signal
use linux_foundation_embedde.Ioctl.Signal.{State, Task, IsDistinct}

-- The three calls of the program of signals, with the signal and the process number it was started
-- with: what they return, and the driver's state.
unfoldable pub signal_test :
    Signal.Commands
    → (ℕ → Option Task)
    → (current : Task) → (pid sig text : ℕ) → State
    → List Return × State
signal_test k pid_task current pid sig text s =
    let (a, s1) = Signal.mycdrv_unlocked_ioctl k pid_task current k.set_pid pid s in
    let (b, s2) = Signal.mycdrv_unlocked_ioctl k pid_task current k.set_sig sig s1 in
    let (c, s3) = Signal.mycdrv_unlocked_ioctl k pid_task current k.send_sig text s2 in
    (a ∷ b ∷ c ∷ [], s3)

-- The task that a process number names, or else the program itself.
abbrev receiver : Task → Option Task → Task
receiver current none = current
receiver current (some t) = t

-- The program of signals, when the commands differ: all three calls return 0, and the one signal sent
-- is the one it was started with, to the task that the process number names, or to the program itself
-- when there is none.
signal_test_sends_once :
    (k : Signal.Commands)
    → IsDistinct k
    → (pid_task : ℕ → Option Task) (current : Task) (pid sig text : ℕ) (s : State)
    → ((signal_test k pid_task current pid sig text s).0 ≡ returns 0 ∷ returns 0 ∷ returns 0 ∷ [])
      × ((signal_test k pid_task current pid sig text s).1.sent
          ≡ (to_int sig, receiver current (pid_task (to_int pid))) ∷ s.sent)
unfolding signal_test Signal.mycdrv_unlocked_ioctl
signal_test_sends_once k distinct pid_task current pid sig text s =
    elim (pid_task (to_int pid))
        as (λ o.
          pid_task (to_int pid) ≡ o
          → ((signal_test k pid_task current pid sig text s).0
              ≡ returns 0 ∷ returns 0 ∷ returns 0 ∷ [])
            × ((signal_test k pid_task current pid sig text s).1.sent
                ≡ (to_int sig, receiver current o) ∷ s.sent)) [
                  | some t ↦
                      λ h. ground (arith, h, distinct.pid_sig, distinct.pid_send, distinct.sig_send)
                  | none ↦
                      λ h. ground (arith, h, distinct.pid_sig, distinct.pid_send, distinct.sig_send)
                ]
      refl
