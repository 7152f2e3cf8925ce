-- ===== src/Device.antt =====
-- What a program sees of a character device over a RAM disk: open files with a position each, and
-- the calls read and write. The drivers fill this interface, and the programs use it.
pub mod Files
pub mod Drivers
pub mod Programs
pub mod Refinement
pub mod Messages
mod Tests
use linux_foundation_embedde.Base.{ℕ, ◌+◌, ◌^◌, ◌≤◌, ◌<◌, ◌≡◌}
use linux_foundation_embedde.Kernel.UserAccess.{Memory, splice}
use linux_foundation_embedde.CharDevice.{Access, ok, Disk, Transfer}
use linux_foundation_embedde.CharDevice.Bounds.{IsValid, room}

-- A driver, with what it promises for memory of the user that can be accessed: a call at a position
-- inside the disk moves the bytes asked for, cut at the end of the disk, and nothing else.
pub record Device : Type 0 where
  pub read : Disk → Memory → ℕ → ℕ → Access Transfer
  pub write : Disk → Memory → ℕ → ℕ → Access Transfer
  pub read_lem :
      (d : Disk)
      → IsValid d
      → (buf : Memory) (lbuf pos : ℕ) → pos ≤ d.ramdisk_size
      → lbuf < 2 ^ 63
      → let n = room d.ramdisk_size pos lbuf in
        read d buf lbuf pos
        ≡ ok (record { nbytes = n; pos = pos + n; bytes = splice buf 0 d.bytes pos n })
  pub write_lem :
      (d : Disk)
      → IsValid d
      → (buf : Memory) (lbuf pos : ℕ) → pos ≤ d.ramdisk_size
      → lbuf < 2 ^ 63
      → let n = room d.ramdisk_size pos lbuf in
        write d buf lbuf pos
        ≡ ok (record { nbytes = n; pos = pos + n; bytes = splice d.bytes pos buf 0 n })
