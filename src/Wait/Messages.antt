-- ===== src/Wait/Messages.antt =====
-- lab_write.c and lab_read.c of chapter_22_sleeping_and_wait_queues/todo on the drivers that sleep, with the bytes that the
-- handlers move: mycdrv_write stores, then sets the flag and wakes; mycdrv_read waits, then transfers. Neither handler looks at
-- the answer of wait_event_interruptible.
pub mod Drivers
pub mod Told
mod Tests
use linux_foundation_embedde.Base.{
  ℕ, ◌+◌, ◌^◌, ◌≤◌, ◌<◌, ◌≡◌, ◌⊎◌, inl, inr, Bool, true, false, ◌||◌, ◌==◌, if◌then◌else◌, ltb,
  length, arith, refl, ap, ◌∙◌, fun_ext, Chain, Chain-invariant,
}
use linux_foundation_embedde.Kernel.UserAccess.{Memory, splice}
use linux_foundation_embedde.CharDevice.{Access, ok, overrun, Disk}
use linux_foundation_embedde.CharDevice.Bounds.{IsValid}
use linux_foundation_embedde.Device.{Device}
use linux_foundation_embedde.Device.Files.{◌>>=◌}
use linux_foundation_embedde.Device.Messages.{message, string, received}
use linux_foundation_embedde.Wait.{
  Reader, starting, asleep, passed, reading, finished, Writer, idle, stored, between, done, State,
  initial, update, interrupted,
}

abbrev pub behind_wait : Reader → Bool
behind_wait passed = true
behind_wait reading = true
behind_wait _ = false

abbrev pub at_rest : Writer → Bool
at_rest idle = true
at_rest done = true
at_rest _ = false

-- Which readers' waits a signal has ended since they called; a reader that calls again starts anew.
abbrev pub called : (ℕ → Bool) → ℕ → Reader → ℕ → Bool
called signalled i finished j = if j == i then false else signalled j
called signalled i _ j = signalled j

abbrev pub is_asleep : Reader → Bool
is_asleep asleep = true
is_asleep _ = false

abbrev pub ended : (ℕ → Bool) → ℕ → Reader → ℕ → Bool
ended signalled i c j = if j == i then is_asleep c || signalled j else signalled j

-- Nothing has been written: no flag is set, no reader is behind its wait but by a signal, and no write has stored its
-- bytes.
pub record IsQuiet (signalled : ℕ → Bool) (s : State) : Type 0 where
  pub unset : s.data_ready ≡ false
  pub waiting : (i : ℕ) → behind_wait (s.readers i) ≡ true → signalled i ≡ true
  pub resting : at_rest s.writer ≡ true

-- The accesses of a driver's two handlers to the flag and the wait queue. They tell the readers nothing before a write
-- has stored its bytes.
pub record Handlers : Type 0 where
  pub mycdrv_read : ℕ → State → State
  pub mycdrv_write : State → State
  pub quiet_read :
      (signalled : ℕ → Bool) (i : ℕ) (s : State)
      → IsQuiet signalled s
      → IsQuiet (called signalled i (s.readers i)) (mycdrv_read i s)
  pub quiet_write :
      (signalled : ℕ → Bool) (s : State)
      → s.writer ≡ done
      → IsQuiet signalled s
      → IsQuiet signalled (mycdrv_write s)

-- The state of the handlers, the disk, the buffer of each reader, and whether a signal ended its wait.
pub record Run : Type 0 where
  pub wait : State
  pub disk : Disk
  pub buffers : ℕ → Memory
  pub signalled : ℕ → Bool

abbrev pub store : (ℕ → Memory) → ℕ → Memory → ℕ → Memory
store buffers i m j = if j == i then m else buffers j

module _ (h : Handlers) (dev : Device) (nbytes : ℕ) where
  abbrev pub after_read : ℕ → Run → Run
  after_read i r = record r {
    wait = h.mycdrv_read i r.wait;
    signalled = called r.signalled i (r.wait.readers i);
  }

  pub reader_at : Reader → ℕ → Run → Access Run
  reader_at reading i r = do
    t ← dev.read r.disk (r.buffers i) nbytes 0
    ok (record (after_read i r) { buffers = store r.buffers i t.bytes })
  reader_at _ i r = ok (after_read i r)

  -- The next access of lab_read.c, which is reader `i`.
  unfoldable pub reader : ℕ → Run → Access Run
  unfolding reader_at
  reader i r = reader_at (r.wait.readers i) i r

  writer_at : Writer → Run → Access Run
  writer_at idle r = do
    t ← dev.write r.disk (string message) (length message) 0
    ok (record r { wait = h.mycdrv_write r.wait; disk = record r.disk { bytes = t.bytes } })
  writer_at _ r = ok (record r { wait = h.mycdrv_write r.wait })

  -- The next access of lab_write.c; one write is under way at a time.
  unfoldable pub writer : Run → Access Run
  unfolding writer_at
  writer r = writer_at r.wait.writer r

  pub data Step : Run → Run → Type 0 where
    read : (i : ℕ) (r : Run) {t : Run} → reader i r ≡ ok t → Step r t
    write : (r : Run) {t : Run} → writer r ≡ ok t → Step r t
    -- A signal ends the wait of a reader that sleeps.
    signal :
        (i : ℕ) (r : Run)
        → Step r (record r {
          wait = record r.wait {
            readers = update r.wait.readers i (interrupted (r.wait.readers i));
          };
          signalled = ended r.signalled i (r.wait.readers i);
        })
