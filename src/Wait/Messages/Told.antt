-- ===== src/Wait/Messages/Told.antt =====
-- What the readers of Wait.Messages get.
use mathlib.Core.Bool.{true≢false}
use native.Mathlib.Decide.{dec_lt}
use linux_foundation_embedde.Base.{
  ℕ, ◌≤◌, ◌<◌, ◌≡◌, ◌⊎◌, inl, inr, Bool, true, false, length, arith, refl, sym, subst, ◌∙◌, ap,
  fun_ext, Chain, Chain-invariant,
}
use linux_foundation_embedde.Kernel.UserAccess.{Memory, splice}
use linux_foundation_embedde.CharDevice.{Access, ok, overrun, Disk}
use linux_foundation_embedde.CharDevice.Bounds.{IsValid, room}
use linux_foundation_embedde.Device.{Device}
use linux_foundation_embedde.Device.Messages.{message, string, received}
use linux_foundation_embedde.Wait.{
  Reader, starting, asleep, passed, reading, finished, Writer, idle, stored, between, done, State,
  initial, update, interrupted,
}
use linux_foundation_embedde.Wait.Messages.{
  IsQuiet, Handlers, Run, store, behind_wait, at_rest, reader_at, reader, writer, Step, read, write,
  signal, ended, after_read,
}

-- The disk has the message at its start.
abbrev HasMessage : Disk → Type 0
HasMessage d = (j : ℕ) → j < length message → d.bytes j ≡ string message j

-- Until the message is on the disk, nobody is told that it is.
record Inv (r : Run) : Type 0 where
  valid : IsValid r.disk
  big : length message ≤ r.disk.ramdisk_size
  told : HasMessage r.disk ⊎ IsQuiet r.signalled r.wait

abbrev pub start : Disk → (ℕ → Memory) → Run
start disk buffers = record {
  wait = initial;
  disk = disk;
  buffers = buffers;
  signalled = λ i. false;
}

-- The message is there when a write is beyond its store, and when a reader is behind its wait.
stored-told : (r : Run) → Inv r → at_rest r.wait.writer ≡ false → HasMessage r.disk
stored-told r v e = elim v.told [ inl m ↦ m | inr q ↦ absurd (true≢false (sym q.resting ∙ e)) ]

reader-told :
    (i : ℕ) (r : Run)
    → Inv r
    → behind_wait (r.wait.readers i) ≡ true
    → r.signalled i ≡ false
    → HasMessage r.disk
reader-told i r v e f = elim v.told [
  | inl m ↦ m
  | inr q ↦ absurd (true≢false (sym (q.waiting i e) ∙ f))
]

-- What a reader's buffer holds behind its next access: only the transfer changes it, to the message where its wait came
-- to its own end, and to whatever the disk holds where a signal ended it.
abbrev pub delivered : (nbytes : ℕ) → Reader → (signalled : Bool) → (disk buf : Memory) → Memory
delivered nbytes reading false disk buf = received nbytes buf
delivered nbytes reading true disk buf = splice buf 0 disk 0 nbytes
delivered nbytes _ signalled disk buf = buf

received_lem :
    (r : Run) (i nbytes : ℕ)
    → nbytes ≤ length message
    → HasMessage r.disk
    → store r.buffers i (splice (r.buffers i) 0 r.disk.bytes 0 nbytes) i
      ≡ received nbytes (r.buffers i)
received_lem r i nbytes short has = fun_ext λ j. elim (dec_lt j nbytes) [
  | yes lt ↦ ground (arith, has j (omega arith))
  | no ge ↦ ground arith
]

ok_run : Run → Access Run → Run
ok_run r (ok t) = t
ok_run r overrun = r

ok-injective : (r t : Run) → ok r ≡ ok t → r ≡ t
unfolding ok_run
ok-injective r t e = ap (ok_run r) e

stored-HasMessage :
    (d : Disk)
    → HasMessage (record d { bytes = splice d.bytes 0 (string message) 0 (length message) })
stored-HasMessage d j lt = ground arith

module _ (h : Handlers) (dev : Device) (nbytes : ℕ) (short : nbytes ≤ length message) where
  came : ℕ → Run → (ℕ → Memory) → Run
  came i r buffers = record (after_read h dev nbytes i r) { buffers = buffers }

  after_write : Run → Disk → Run
  after_write r d = record r { wait = h.mycdrv_write r.wait; disk = d }

  -- What a reader's transfer leaves in its buffer.
  transfer_lem :
      (i : ℕ) (r : Run) (signalled : Bool)
      → (signalled ≡ false → HasMessage r.disk)
      → store r.buffers i (splice (r.buffers i) 0 r.disk.bytes 0 nbytes) i
        ≡ delivered nbytes reading signalled r.disk.bytes (r.buffers i)
  transfer_lem i r true f = fun_ext λ j. ground arith
  transfer_lem i r false f = received_lem r i nbytes short (f refl)

  -- Each access of a reader succeeds, leaves the disk as it was, and delivers what it should.
  reader_ok :
      (c : Reader) (i : ℕ) (r : Run)
      → Inv r
      → (buffers : ℕ → Memory) × (reader_at h dev nbytes c i r ≡ ok (came i r buffers))
        × (r.wait.readers i ≡ c
            → buffers i ≡ delivered nbytes c (r.signalled i) r.disk.bytes (r.buffers i))
  unfolding reader_at came
  reader_ok reading i r v =
      let all : room r.disk.ramdisk_size 0 nbytes ≡ nbytes = ground (arith, v.big) in
      let reads = dev.read_lem r.disk v.valid (r.buffers i) nbytes 0 (omega arith) (omega arith) in
      (
        store r.buffers i (splice (r.buffers i) 0 r.disk.bytes 0 nbytes),
        rw (reads, all) refl,
        λ e. transfer_lem i r (r.signalled i) (reader-told i r v (ap behind_wait e)),
      )
  reader_ok starting i r v = (r.buffers, refl, λ e. refl)
  reader_ok asleep i r v = (r.buffers, refl, λ e. refl)
  reader_ok passed i r v = (r.buffers, refl, λ e. refl)
  reader_ok finished i r v = (r.buffers, refl, λ e. refl)

  reader-Inv : (i : ℕ) (r : Run) (buffers : ℕ → Memory) → Inv r → Inv (came i r buffers)
  unfolding came
  reader-Inv i r buffers v = record {
    valid = v.valid;
    big = v.big;
    told = elim v.told [ inl m ↦ inl m | inr q ↦ inr (h.quiet_read r.signalled i r.wait q) ];
  }

  signal-IsQuiet :
      (i : ℕ) (signalled : ℕ → Bool) (s : State)
      → IsQuiet signalled s
      → IsQuiet
          (ended signalled i (s.readers i))
          (record s { readers = update s.readers i (interrupted (s.readers i)) })
  signal-IsQuiet i signalled s q = record {
    unset = q.unset;
    waiting = λ j e. ground (arith, q.waiting j, e);
    resting = q.resting;
  }

  -- Each access of the writer succeeds and keeps the invariant.
  writer_ok :
      (c : Writer) (r : Run)
      → Inv r
      → r.wait.writer ≡ c
      → (d : Disk) × (writer h dev nbytes r ≡ ok (after_write r d)) × Inv (after_write r d)
  unfolding writer after_write
  writer_ok idle r v e =
      let all : room r.disk.ramdisk_size 0 (length message) ≡ length message =
        ground (arith, v.big) in
      let writes =
        dev.write_lem r.disk v.valid (string message) (length message) 0 (omega arith)
          (omega arith) in
      (
        _,
        rw e (rw (writes, all) refl),
        record {
          valid = record { whole = v.valid.whole; small = v.valid.small };
          big = v.big;
          told = inl (stored-HasMessage r.disk);
        },
      )
  writer_ok stored r v e = (
    r.disk,
    rw e refl,
    record { valid = v.valid; big = v.big; told = inl (stored-told r v (ap at_rest e)) },
  )
  writer_ok between r v e = (
    r.disk,
    rw e refl,
    record { valid = v.valid; big = v.big; told = inl (stored-told r v (ap at_rest e)) },
  )
  writer_ok done r v e = (
    r.disk,
    rw e refl,
    record {
      valid = v.valid;
      big = v.big;
      told = elim v.told [ inl m ↦ inl m | inr q ↦ inr (h.quiet_write r.signalled r.wait e q) ];
    },
  )

  Step-Inv : (r t : Run) → Step h dev nbytes r t → Inv r → Inv t
  unfolding reader
  Step-Inv r t (read i _ e) v =
      let (buffers, run, _) = reader_ok (r.wait.readers i) i r v in
      subst Inv (ok-injective _ _ (sym run ∙ e)) (reader-Inv i r buffers v)
  Step-Inv r t (write _ e) v =
      let (d, run, inv) = writer_ok r.wait.writer r v refl in
      subst Inv (ok-injective _ _ (sym run ∙ e)) inv
  Step-Inv r t (signal i _) v = record {
    valid = v.valid;
    big = v.big;
    told = elim v.told [ inl m ↦ inl m | inr q ↦ inr (signal-IsQuiet i r.signalled r.wait q) ];
  }

  -- On a disk with room for the message, whatever it holds at first, through every driver whose handlers fill the
  -- interface, for transfers of as many bytes as the message has or of fewer, and in every reachable state, of any number
  -- of readers, of writes in any order and of signals: the next access of lab_write.c and of each lab_read.c stays on the
  -- disk, and a reader's buffer changes only in its transfer, to so much of the message if its wait came to its own end.
  -- If a signal ended the wait, which neither handler looks at, the buffer gets whatever the disk holds by then.
  pub readers_get_message :
      (disk : Disk) (buffers : ℕ → Memory) {r : Run}
      → IsValid disk
      → length message ≤ disk.ramdisk_size
      → Chain (Step h dev nbytes) (start disk buffers) r
      → (i : ℕ)
      → ((t : Run) × (writer h dev nbytes r ≡ ok t))
        × ((t : Run) × (reader h dev nbytes i r ≡ ok t)
            × (t.buffers i
                ≡ delivered nbytes (r.wait.readers i) (r.signalled i) r.disk.bytes (r.buffers i)))
  unfolding reader came
  readers_get_message disk buffers {r} valid big c i =
      let quiet : IsQuiet (λ j. false) initial = record {
        unset = refl;
        waiting = λ j b. absurd (true≢false (sym b));
        resting = refl;
      } in
      let v =
        Chain-invariant Inv Step-Inv c (record { valid = valid; big = big; told = inr quiet }) in
      let (b, run, gets) = reader_ok (r.wait.readers i) i r v in
      ((_, (writer_ok r.wait.writer r v refl).1), (_, run, gets refl))
