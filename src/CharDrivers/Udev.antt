-- ===== src/CharDrivers/Udev.antt =====
-- chapter_11_character_drivers/todo/lab_dynamic_udev.c: the driver of lab_dynamic.c, which also makes
-- the node of its device, as my_generic_init of generic_char_driver.h does.
use linux_foundation_embedde.Base.{ℕ}
use linux_foundation_embedde.Kernel.UserAccess.{Memory, UserAccess}
use linux_foundation_embedde.Kernel.Ledger.{Run, Status}
use linux_foundation_embedde.CharDevice.{
  Access, Disk, Transfer, mycdrv_generic_read, mycdrv_generic_write,
}
use linux_foundation_embedde.CharDevice.Module.{Replies, Globals, my_generic_init, my_generic_exit}
use linux_foundation_embedde.CharDrivers.Improve

abbrev pub mycdrv_open : ℕ → Status × ℕ
mycdrv_open = Improve.mycdrv_open

abbrev pub mycdrv_read : UserAccess → Disk → Memory → ℕ → ℕ → Access Transfer
mycdrv_read = mycdrv_generic_read

abbrev pub mycdrv_write : UserAccess → Disk → Memory → ℕ → ℕ → Access Transfer
mycdrv_write = mycdrv_generic_write

abbrev pub my_init : Replies → Run (Status × Globals)
my_init = my_generic_init

abbrev pub my_exit : Globals → Run (Unit {0})
my_exit = my_generic_exit
