-- ===== src/CharDrivers/Dynamic.antt =====
-- chapter_11_character_drivers/todo/lab_dynamic.c: the driver of lab_char.c with device numbers that
-- the kernel chooses, and transfers that are cut at the end of the disk as generic_char_driver.h
-- cuts them.
use linux_foundation_embedde.Base.{ℕ}
use linux_foundation_embedde.Kernel.UserAccess.{Memory, UserAccess}
use linux_foundation_embedde.Kernel.Ledger.{Run, Status}
use linux_foundation_embedde.CharDevice.{
  Access, Disk, Transfer, mycdrv_generic_read, mycdrv_generic_write,
}
use linux_foundation_embedde.CharDrivers.Improve
use linux_foundation_embedde.CharDrivers.Improve.{Replies, Globals}

abbrev pub mycdrv_open : ℕ → Status × ℕ
mycdrv_open = Improve.mycdrv_open

abbrev pub mycdrv_read : UserAccess → Disk → Memory → ℕ → ℕ → Access Transfer
mycdrv_read = mycdrv_generic_read

abbrev pub mycdrv_write : UserAccess → Disk → Memory → ℕ → ℕ → Access Transfer
mycdrv_write = mycdrv_generic_write

-- alloc_chrdev_region stands where improve_char_driver.c has register_chrdev_region.
abbrev pub my_init : Replies → Run (Status × Globals)
my_init = Improve.my_init

abbrev pub my_exit : Globals → Run (Unit {0})
my_exit = Improve.my_exit
