-- ===== src/Interrupt/Uio.antt =====
-- chapter_23_deferrable_functions/lab_uio.c: the interrupt handler counts events, and readers take
-- the count over to the user.
use linux_foundation_embedde.Base.{
  ℕ, ◌+◌, ◌-◌, ◌^◌, ◌<◌, ◌≡◌, ◌≢◌, ◌↔◌, Bool, true, false, not, ◌&&◌, ◌||◌, ltb, ◌==◌,
  if◌then◌else◌, to_int, arith, refl, Chain, Chain-invariant,
}
use linux_foundation_embedde.Kernel.Ledger.{
  acquire, release, irq, Run, ◌>>=◌, ◌>>◌, return, call, ask, settle, Status, error, insmod_rmmod,
  IsBalanced,
}
use linux_foundation_embedde.MiscDevice.{my_generic_init, my_generic_exit}

-- What a read returns: -ERESTARTSYS, -EIO, or the length of the text that gives `nev` to the user.
pub data Answer : Type 0 where
  restart io_error : Answer
  text_of : (nev : ℕ) → Answer

-- Where a reader stands: before the wait looks at `nevents`; asleep; behind the wait; with the `nev`
-- that it read, and has not subtracted yet or has not copied to the user yet; returned; or it has
-- not called yet.
pub data Reader : Type 0 where
  outside starting asleep passed : Reader
  taking copying : (nev : ℕ) → Reader
  finished : Answer → Reader

-- `nevents`; how many interrupts there were, and how many events readers took off, both as the
-- 32-bit counters that they would be.
pub record State : Type 0 where
  pub nevents : ℕ
  pub interrupts : ℕ
  pub taken : ℕ
  pub readers : ℕ → Reader

abbrev pub update : (ℕ → Reader) → ℕ → Reader → ℕ → Reader
update f i r j = if j == i then r else f j

-- `atomic_read (&nevents) > 0`, of an `int`.
abbrev pub positive : ℕ → Bool
positive n = ltb 0 n && ltb n (2 ^ 31)

-- `wake_up_interruptible` is the kernel's, on the readers.
unfoldable pub my_interrupt : (wake_up_interruptible : (ℕ → Reader) → ℕ → Reader) → State → State
my_interrupt wake_up_interruptible s = record s {
  nevents = to_int (s.nevents + 1);
  interrupts = to_int (s.interrupts + 1);
  readers = wake_up_interruptible s.readers;
}

-- The next access of reader `i`; `signalled` is signal_pending, which also ends the wait, and
-- `copied` whether copy_to_user returned 0.
read_at : Reader → (i : ℕ) → (signalled copied : Bool) → State → State
read_at outside i signalled copied s = record s { readers = update s.readers i starting }
read_at starting i signalled copied s = record s {
  readers = update s.readers i (if positive s.nevents then passed else asleep);
}
read_at asleep i signalled copied s = record s {
  readers = update s.readers i (if signalled then passed else asleep);
}
read_at passed i signalled copied s = record s {
  readers = update s.readers i (if signalled then finished restart else taking s.nevents);
}
read_at (taking nev) i signalled copied s = record s {
  nevents = to_int (s.nevents + 2 ^ 32 - to_int nev);
  taken = to_int (s.taken + nev);
  readers = update s.readers i (copying nev);
}
read_at (copying nev) i signalled copied s = record s {
  readers = update s.readers i (finished (if copied then text_of nev else io_error));
}
read_at (finished r) i signalled copied s = record s { readers = update s.readers i outside }

unfoldable pub mycdrv_read : (i : ℕ) → (signalled copied : Bool) → State → State
unfolding read_at
mycdrv_read i signalled copied s = read_at (s.readers i) i signalled copied s

-- `mask` is the kernel's POLLIN | POLLRDNORM.
unfoldable pub mycdrv_poll : (mask : ℕ) → State → ℕ
mycdrv_poll mask s = if positive s.nevents then mask else 0

-- The counters as my_init leaves them.
abbrev pub initial : State
initial = record { nevents = 0; interrupts = 0; taken = 0; readers = λ i. outside }

pub data Step (wake : (ℕ → Reader) → ℕ → Reader) : State → State → Type 0 where
  interrupt : (s : State) → Step wake s (my_interrupt wake s)
  read :
      (i : ℕ) (signalled copied : Bool) (s : State) → Step wake s (mycdrv_read i signalled copied s)

pub record Inv (s : State) : Type 0 where
  pub accounts : to_int (s.nevents + s.taken) ≡ s.interrupts
  pub fits : s.nevents < 2 ^ 32
  pub taken_fits : s.taken < 2 ^ 32

read_at-Inv :
    (r : Reader) (i : ℕ) (signalled copied : Bool) (s : State)
    → Inv s
    → Inv (read_at r i signalled copied s)
unfolding read_at
read_at-Inv outside i signalled copied s v = ground arith
read_at-Inv starting i signalled copied s v = ground arith
read_at-Inv asleep i signalled copied s v = ground arith
read_at-Inv passed i signalled copied s v = ground arith
read_at-Inv (taking nev) i signalled copied s v = ground arith
read_at-Inv (copying nev) i signalled copied s v = ground arith
read_at-Inv (finished r) i signalled copied s v = ground arith

Step-Inv : (wake : (ℕ → Reader) → ℕ → Reader) (s t : State) → Step wake s t → Inv s → Inv t
unfolding my_interrupt mycdrv_read
Step-Inv wake s t (interrupt _) v = ground arith
Step-Inv wake s t (read i signalled copied _) v = read_at-Inv (s.readers i) i signalled copied s v

-- The events are accounted for: in every reachable state, of any number of readers, the events that are
-- left and those that readers took off, also where the copy to the user fails, make up the interrupts (modulo 2 ^ 32, as the counters are).
pub uio_accounts :
    (wake : (ℕ → Reader) → ℕ → Reader) {s : State}
    → Chain (Step wake) initial s
    → to_int (s.nevents + s.taken) ≡ s.interrupts
uio_accounts wake c =
    (Chain-invariant Inv (Step-Inv wake) c
      (record { accounts = refl; fits = omega arith; taken_fits = omega arith })).accounts

-- Two readers that are behind the wait at a time both take all of the events: each gives the same
-- number to its user, and `nevents` is negative afterwards.
uio_reads_twice :
    (i j : ℕ) (s : State)
    → i ≢ j
    → s.readers i ≡ passed
    → s.readers j ≡ passed
    → positive s.nevents ≡ true
    → let both = mycdrv_read j false true (mycdrv_read i false true s) in
      let t = mycdrv_read j false true (mycdrv_read i false true both) in
      (both.readers i ≡ taking s.nevents)
      × (both.readers j ≡ taking s.nevents)
      × (t.nevents ≡ 2 ^ 32 - s.nevents)
      × (t.readers i ≡ copying s.nevents)
      × (t.readers j ≡ copying s.nevents)
unfolding mycdrv_read
uio_reads_twice i j s differ a b pos = ground arith

-- my_init and my_exit, over those of the misc device. `irq` is the line `n`.
unfoldable pub my_init : (n : ℕ) (granted memory_allocated registered : Bool) → Run (Status × Bool)
unfolding my_generic_init
my_init n granted memory_allocated registered = do
  requested ← ask (acquire (irq n)) granted
  if not requested then return (error 1, false) else my_generic_init memory_allocated registered

unfoldable pub my_exit : (n : ℕ) → Bool → Run (Unit {0})
unfolding my_generic_exit
my_exit n ramdisk = do call (release (irq n)); my_generic_exit ramdisk

-- Loading and unloading leave nothing behind exactly if the line was refused or the device could be
-- registered: the interrupt handler stays when the registration fails, although the module goes.
pub uio-IsBalanced_iff :
    (n : ℕ) (granted memory_allocated registered : Bool)
    → IsBalanced (insmod_rmmod (my_init n granted memory_allocated registered) (my_exit n))
      ↔ (not granted || registered ≡ true)
unfolding my_init my_exit settle
uio-IsBalanced_iff n granted memory_allocated registered = ground arith
