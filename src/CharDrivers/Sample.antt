-- ===== src/CharDrivers/Sample.antt =====
-- chapter_11_character_drivers/sample/sample_char_driver.c: a driver that refuses every transfer
-- which would cross the end of its RAM disk, and checks no answer while it loads.
use linux_foundation_embedde.Base.{
  ℕ, ◌+◌, ◌-◌, ◌^◌, ◌≤◌, ◌<◌, Bool, true, ◌≡◌, ◌↔◌, if◌then◌else◌, refl, arith, ltb, add64,
}
use linux_foundation_embedde.Kernel.UserAccess.{Memory, UserAccess}
use linux_foundation_embedde.Kernel.Ledger.{
  acquire, release, kfree, operate, region, cdev, Run, ◌>>=◌, ◌>>◌, return, call, ask, Status,
  success, insmod_rmmod, IsBalanced, settle, memory,
}
use linux_foundation_embedde.CharDevice.{Access, ok, overrun, Disk, in_block, Transfer, transferred}
use linux_foundation_embedde.CharDevice.Bounds.{IsValid, transferred_lem}

module _ (u : UserAccess) where
  open u use {copy_to_user, copy_from_user}

  unfoldable pub mycdrv_read : Disk → Memory → ℕ → ℕ → Access Transfer
  mycdrv_read d buf lbuf pos =
      if ltb d.ramdisk_size (add64 lbuf pos)
      then ok (record { nbytes = 0; pos = pos; bytes = buf })
      else if in_block d pos lbuf
      then ok (transferred lbuf pos (copy_to_user buf d.bytes pos lbuf))
      else overrun

  unfoldable pub mycdrv_write : Disk → Memory → ℕ → ℕ → Access Transfer
  mycdrv_write d buf lbuf pos =
      if ltb d.ramdisk_size (add64 lbuf pos)
      then ok (record { nbytes = 0; pos = pos; bytes = d.bytes })
      else if in_block d pos lbuf
      then ok (transferred lbuf pos (copy_from_user d.bytes pos buf lbuf))
      else overrun

-- The kernel's answers; the driver looks at none of them.
pub record Replies : Type 0 where
  pub memory_allocated : Bool
  pub region_free : Bool
  pub cdev_allocated : Bool
  pub cdev_added : Bool

-- `ramdisk`, by whether it is not NULL.
unfoldable pub my_init : Replies → Run (Status × Bool)
my_init k = do
  ramdisk ← ask (acquire (memory 0)) k.memory_allocated
  call (acquire region k.region_free)
  call (acquire cdev k.cdev_allocated)
  call (operate cdev true)
  call (operate cdev k.cdev_added)
  return (success, ramdisk)

unfoldable pub my_exit : Bool → Run (Unit {0})
my_exit ramdisk = do call (release cdev); call (release region); call (kfree 0 ramdisk)

module _ (u : UserAccess) {d : Disk} (v : IsValid d) (buf : Memory) (lbuf pos : ℕ) where
  -- A read and a write that would cross the end of the disk return 0 and change nothing, for every
  -- length and position below 2 ^ 63.
  sample_crossing :
      lbuf < 2 ^ 63
      → pos < 2 ^ 63
      → d.ramdisk_size < lbuf + pos
      → (mycdrv_read u d buf lbuf pos ≡ ok (record { nbytes = 0; pos = pos; bytes = buf }))
        × (mycdrv_write u d buf lbuf pos ≡ ok (record { nbytes = 0; pos = pos; bytes = d.bytes }))
  unfolding mycdrv_read mycdrv_write
  sample_crossing a b past = (ground arith, ground arith)

  -- A read and a write that end inside the disk do not leave it: they copy the whole length, return
  -- what the copy moved, and move the position by it.
  sample_inside :
      lbuf + pos ≤ d.ramdisk_size
      → let (left, m) = u.copy_to_user buf d.bytes pos lbuf in
        let (left', m') = u.copy_from_user d.bytes pos buf lbuf in
        (mycdrv_read u d buf lbuf pos
          ≡ ok (record { nbytes = lbuf - left; pos = pos + (lbuf - left); bytes = m }))
        × (mycdrv_write u d buf lbuf pos
            ≡ ok (record { nbytes = lbuf - left'; pos = pos + (lbuf - left'); bytes = m' }))
  unfolding mycdrv_read mycdrv_write
  sample_inside fits = (
    ground (
      arith,
      transferred_lem lbuf pos _ (u.copy_to_user buf d.bytes pos lbuf).1 (omega arith) (omega arith)
          (u.to_left buf d.bytes pos lbuf),
    ),
    ground (
      arith,
      transferred_lem lbuf pos _ (u.copy_from_user d.bytes pos buf lbuf).1 (omega arith)
          (omega arith) (u.from_left d.bytes pos buf lbuf),
    ),
  )

-- Loading and unloading leave nothing behind exactly when the device numbers were free and the
-- cdev was allocated. The failures are not looked at: the exit function would unregister numbers
-- that belong to another driver.
sample-IsBalanced :
    (k : Replies)
    → IsBalanced (insmod_rmmod (my_init k) my_exit)
      ↔ (k.region_free ≡ true) × (k.cdev_allocated ≡ true)
unfolding my_init my_exit settle
sample-IsBalanced k = ground arith

-- The initialisation reports success whatever the kernel answers.
pub sample_init_success : (k : Replies) → (my_init k).0.0 ≡ success
unfolding my_init
sample_init_success k = refl
