-- ===== src/Ioctl/Signal.antt =====
-- chapter_19_ioctls/todo/lab_ioctl_signal.c: commands that choose a process and a signal, and send
-- it. Which task a process number names is the kernel's affair, and so is the sending.
use linux_foundation_embedde.Base.{
  ℕ, ◌≡◌, ◌≢◌, arith, Option, none, some, List, ◌∷◌, ◌==◌, if◌then◌else◌, to_int,
}
use linux_foundation_embedde.Ioctl.{Return, returns, error}

-- The numbers of the commands, by the kernel's macro _IO.
pub record Commands : Type 0 where
  pub set_pid : ℕ
  pub set_sig : ℕ
  pub send_sig : ℕ

-- A task of the kernel: its identity and its process number.
pub record Task : Type 0 where
  pub identity : ℕ
  pub pid : ℕ

-- `sig_pid`, `sig_tsk` (`none` is NULL) and `sig_tosend`; and the calls of send_sig so far, the
-- latest first, as the signal and the task.
pub record State : Type 0 where
  pub sig_pid : ℕ
  pub sig_tsk : Option Task
  pub sig_tosend : ℕ
  pub sent : List (ℕ × Task)

-- `pid_task n` is the task that the process number `n` names, and `current` the calling task.
module _ (k : Commands) (pid_task : ℕ → Option Task) (current : Task) where
  send : Option Task → State → State
  send (some t) s = record s { sent = (s.sig_tosend, t) ∷ s.sent }
  send none s = record s {
    sig_tsk = some current;
    sig_pid = to_int current.pid;
    sent = (s.sig_tosend, current) ∷ s.sent;
  }

  unfoldable pub mycdrv_unlocked_ioctl : (cmd arg : ℕ) → State → Return × State
  unfolding send
  mycdrv_unlocked_ioctl cmd arg s =
      if cmd == k.set_pid
      then (returns 0, record s { sig_pid = to_int arg; sig_tsk = pid_task (to_int arg) })
      else if cmd == k.set_sig
      then (returns 0, record s { sig_tosend = to_int arg })
      else if cmd == k.send_sig
      then (returns 0, send s.sig_tsk s)
      else (error 22, s)

  -- The state behind a command.
  abbrev pub ioctl : ℕ → ℕ → State → State
  ioctl cmd arg s = (mycdrv_unlocked_ioctl cmd arg s).1

-- The commands have different numbers.
pub record IsDistinct (k : Commands) : Type 0 where
  pub pid_sig : k.set_pid ≢ k.set_sig
  pub pid_send : k.set_pid ≢ k.send_sig
  pub sig_send : k.set_sig ≢ k.send_sig

module _ (k : Commands) (distinct : IsDistinct k) (pid_task : ℕ → Option Task)
    (current : Task) where
  -- After a process number and a signal were set, in either order, SENDSIG sends that signal once,
  -- to the task that the number named, whatever was set before.
  set-send :
      (pid sig arg : ℕ) (s : State) {t : Task}
      → pid_task (to_int pid) ≡ some t
      → ((ioctl k pid_task current k.send_sig arg (
            ioctl k pid_task current k.set_sig sig (ioctl k pid_task current k.set_pid pid s))).sent
          ≡ (to_int sig, t) ∷ s.sent)
        × ((ioctl k pid_task current k.send_sig arg (
              ioctl k pid_task current k.set_pid pid
                (ioctl k pid_task current k.set_sig sig s))).sent
            ≡ (to_int sig, t) ∷ s.sent)
  unfolding mycdrv_unlocked_ioctl
  set-send pid sig arg s h = ground arith

  -- If the process number that was set last names no task, SENDSIG sends the signal to the calling
  -- task, and every later SENDSIG does so too until the number is set again.
  send_without_task :
      (pid arg arg' : ℕ) (s : State)
      → pid_task (to_int pid) ≡ none
      → (ioctl k pid_task current k.send_sig arg'
          (ioctl k pid_task current k.send_sig arg (ioctl k pid_task current k.set_pid pid s))).sent
        ≡ (s.sig_tosend, current) ∷ (s.sig_tosend, current) ∷ s.sent
  unfolding mycdrv_unlocked_ioctl
  send_without_task pid arg arg' s h = ground arith
