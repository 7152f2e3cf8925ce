-- ===== src/CharDrivers/Improve.antt =====
-- chapter_11_character_drivers/improve_sample/improve_char_driver.c: the driver that counts its
-- opens and checks the answers while it loads, but no bound when it copies.
use linux_foundation_embedde.Base.{
  ℕ, ◌+◌, ◌<◌, Bool, true, false, not, ◌≡◌, ◌↔◌, if◌then◌else◌, arith, to_int,
}
use linux_foundation_embedde.Kernel.UserAccess.{Memory, UserAccess}
use linux_foundation_embedde.Kernel.Ledger.{
  acquire, release, kfree, operate, region, cdev, Run, ◌>>=◌, ◌>>◌, return, call, ask, Status,
  success, error, insmod_rmmod, IsBalanced, settle, memory,
}
use linux_foundation_embedde.CharDevice.{Access, ok, overrun, Disk, in_block, Transfer, transferred}
use linux_foundation_embedde.CharDevice.Bounds.{IsValid}

-- The static counter of mycdrv_open, an `int`.
unfoldable pub mycdrv_open : ℕ → Status × ℕ
mycdrv_open counter = (success, to_int (counter + 1))

module _ (u : UserAccess) where
  open u use {copy_to_user, copy_from_user}

  unfoldable pub mycdrv_read : Disk → Memory → ℕ → ℕ → Access Transfer
  mycdrv_read d buf lbuf pos =
      if in_block d pos lbuf
      then ok (transferred lbuf pos (copy_to_user buf d.bytes pos lbuf))
      else overrun

  unfoldable pub mycdrv_write : Disk → Memory → ℕ → ℕ → Access Transfer
  mycdrv_write d buf lbuf pos =
      if in_block d pos lbuf
      then ok (transferred lbuf pos (copy_from_user d.bytes pos buf lbuf))
      else overrun

pub record Replies : Type 0 where
  pub region_free : Bool
  pub cdev_allocated : Bool
  pub memory_allocated : Bool
  pub cdev_added : Bool

-- `my_cdev` and `ramdisk`, by whether they are not NULL.
pub record Globals : Type 0 where
  pub my_cdev : Bool
  pub ramdisk : Bool

unfoldable pub my_init : Replies → Run (Status × Globals)
my_init k = do
  registered ← ask (acquire region) k.region_free
  if not registered then return (error 1, record { my_cdev = false; ramdisk = false }) else (do
    my_cdev ← ask (acquire cdev) k.cdev_allocated
    if not my_cdev
        then (do
          call (release region)
          return (error 1, record { my_cdev = false; ramdisk = false }))
        else (do
          call (operate cdev true)
          ramdisk ← ask (acquire (memory 0)) k.memory_allocated
          added ← ask (operate cdev) k.cdev_added
          if not added
              then (do
                call (release cdev)
                call (release region)
                call (kfree 0 ramdisk)
                return (error 1, record { my_cdev = true; ramdisk = ramdisk }))
              else return (success, record { my_cdev = true; ramdisk = ramdisk })))

unfoldable pub my_exit : Globals → Run (Unit {0})
my_exit g = do
  if g.my_cdev then call (release cdev) else return tt
  call (release region)
  call (kfree 0 g.ramdisk)

-- Whatever the kernel answers, loading the module and unloading it leaves nothing behind.
pub improve-IsBalanced : (k : Replies) → IsBalanced (insmod_rmmod (my_init k) my_exit)
unfolding my_init my_exit settle
improve-IsBalanced k = ground arith

-- No bound is checked: a read or a write leaves the disk exactly when it asks for a byte behind its
-- end.
improve_overruns_iff :
    (u : UserAccess) {d : Disk} (v : IsValid d) (buf : Memory) (lbuf pos : ℕ)
    → ((mycdrv_read u d buf lbuf pos ≡ overrun) ↔ (0 < lbuf) × (d.ramdisk_size < pos + lbuf))
      × ((mycdrv_write u d buf lbuf pos ≡ overrun) ↔ (0 < lbuf) × (d.ramdisk_size < pos + lbuf))
unfolding mycdrv_read mycdrv_write
improve_overruns_iff u v buf lbuf pos = ground arith
