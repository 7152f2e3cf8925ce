-- ===== src/MiscDevice.antt =====
-- chapter_13_mem_user_and_kernel_space/copy_to_from/misc_dev.h: the misc device, whose transfers are
-- calls of the kernel's buffer functions. The lab_miscdev.h and generic_misc_dev.h headers of the
-- other chapters repeat it, and copy_to_from_driver.c beside it adds nothing.
pub mod Headers
use linux_foundation_embedde.Base.{
  ℕ, ◌+◌, ◌^◌, ◌≤◌, ◌<◌, ◌≡◌, Bool, not, if◌then◌else◌, to_int, arith,
}
use linux_foundation_embedde.Kernel.UserAccess.{Memory, splice}
use linux_foundation_embedde.Kernel.Ledger.{
  acquire, release, kfree, misc, memory, Run, ◌>>=◌, ◌>>◌, return, call, ask, Status, success,
  error, insmod_rmmod, IsBalanced, settle,
}
use linux_foundation_embedde.CharDevice.{Access, ok, Disk, Transfer}
use linux_foundation_embedde.CharDevice
use linux_foundation_embedde.CharDevice.Bounds.{IsValid, room}
use linux_foundation_embedde.Device.{Device}

-- What simple_read_from_buffer and simple_write_to_buffer return (a `ssize_t` as a 64-bit pattern),
-- the new `*ppos` and the memory written, as the kernel documents them for memory of the user that
-- can be accessed.
pub record SimpleBuffer : Type 0 where
  pub simple_read_from_buffer :
      (to : Memory) (count ppos : ℕ) (from : Memory) (available : ℕ) → ℕ × ℕ × Memory
  pub read_some :
      (to : Memory) (count ppos : ℕ) (from : Memory) (available : ℕ)
      → ppos ≤ available
      → available < 2 ^ 31
      → let n = room available ppos count in
        simple_read_from_buffer to count ppos from available
        ≡ (n, ppos + n, splice to 0 from ppos n)
  pub simple_write_to_buffer :
      (to : Memory) (available ppos : ℕ) (from : Memory) (count : ℕ) → ℕ × ℕ × Memory
  pub write_some :
      (to : Memory) (available ppos : ℕ) (from : Memory) (count : ℕ)
      → ppos ≤ available
      → available < 2 ^ 31
      → let n = room available ppos count in
        simple_write_to_buffer to available ppos from count ≡ (n, ppos + n, splice to ppos from 0 n)

-- `int nbytes = …; return nbytes;`
abbrev pub as_int : ℕ × ℕ × Memory → Transfer
as_int (n, pos, m) = record { nbytes = to_int n; pos = pos; bytes = m }

abbrev pub mycdrv_generic_open : ℕ → Status × ℕ
mycdrv_generic_open = CharDevice.mycdrv_generic_open

abbrev pub mycdrv_generic_release : Status
mycdrv_generic_release = CharDevice.mycdrv_generic_release

module _ (k : SimpleBuffer) where
  open k use {simple_read_from_buffer, simple_write_to_buffer}

  unfoldable pub mycdrv_generic_read : Disk → Memory → ℕ → ℕ → Access Transfer
  mycdrv_generic_read d buf lbuf pos =
      ok (as_int (simple_read_from_buffer buf lbuf pos d.bytes d.ramdisk_size))

  unfoldable pub mycdrv_generic_write : Disk → Memory → ℕ → ℕ → Access Transfer
  mycdrv_generic_write d buf lbuf pos =
      ok (as_int (simple_write_to_buffer d.bytes d.ramdisk_size pos buf lbuf))

  pub misc_read_lem :
      (d : Disk)
      → IsValid d
      → (buf : Memory) (lbuf pos : ℕ) → pos ≤ d.ramdisk_size
      → lbuf < 2 ^ 63
      → let n = room d.ramdisk_size pos lbuf in
        mycdrv_generic_read d buf lbuf pos
        ≡ ok (record { nbytes = n; pos = pos + n; bytes = splice buf 0 d.bytes pos n })
  unfolding mycdrv_generic_read
  misc_read_lem d v buf lbuf pos inside h =
      ground (arith, k.read_some buf lbuf pos d.bytes d.ramdisk_size inside v.small)

  pub misc_write_lem :
      (d : Disk)
      → IsValid d
      → (buf : Memory) (lbuf pos : ℕ) → pos ≤ d.ramdisk_size
      → lbuf < 2 ^ 63
      → let n = room d.ramdisk_size pos lbuf in
        mycdrv_generic_write d buf lbuf pos
        ≡ ok (record { nbytes = n; pos = pos + n; bytes = splice d.bytes pos buf 0 n })
  unfolding mycdrv_generic_write
  misc_write_lem d v buf lbuf pos inside h =
      ground (arith, k.write_some d.bytes d.ramdisk_size pos buf lbuf inside v.small)

  abbrev pub misc_device : Device
  misc_device = record {
    read = mycdrv_generic_read;
    write = mycdrv_generic_write;
    read_lem = misc_read_lem;
    write_lem = misc_write_lem;
  }

-- `ramdisk`, by whether it is not NULL. -EBUSY is 16.
unfoldable pub my_generic_init : (memory_allocated registered : Bool) → Run (Status × Bool)
my_generic_init memory_allocated registered = do
  ramdisk ← ask (acquire (memory 0)) memory_allocated
  registered' ← ask (acquire misc) registered
  if not registered'
      then (do call (kfree 0 ramdisk); return (error 16, ramdisk))
      else return (success, ramdisk)

unfoldable pub my_generic_exit : Bool → Run (Unit {0})
my_generic_exit ramdisk = do call (release misc); call (kfree 0 ramdisk)

-- Whatever kmalloc and misc_register answer, loading and unloading leave nothing behind.
misc-IsBalanced :
    (memory_allocated registered : Bool)
    → IsBalanced (insmod_rmmod (my_generic_init memory_allocated registered) my_generic_exit)
unfolding my_generic_init my_generic_exit settle
misc-IsBalanced memory_allocated registered = ground arith
