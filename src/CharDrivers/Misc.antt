-- ===== src/CharDrivers/Misc.antt =====
-- chapter_11_character_drivers/todo/lab_misc.c and sample_misc_driver.c: the transfers of lab_dynamic.c
-- and of sample_char_driver.c on a misc device.
use linux_foundation_embedde.Base.{ℕ, Bool}
use linux_foundation_embedde.Kernel.UserAccess.{Memory, UserAccess}
use linux_foundation_embedde.Kernel.Ledger.{Run, Status}
use linux_foundation_embedde.CharDevice.{
  Access, Disk, Transfer, mycdrv_generic_read, mycdrv_generic_write,
}
use linux_foundation_embedde.CharDrivers.Sample
use linux_foundation_embedde.CharDrivers.Improve
use linux_foundation_embedde.MiscDevice.{my_generic_init, my_generic_exit}

abbrev pub mycdrv_open : ℕ → Status × ℕ
mycdrv_open = Improve.mycdrv_open

abbrev pub mycdrv_read : UserAccess → Disk → Memory → ℕ → ℕ → Access Transfer
mycdrv_read = mycdrv_generic_read

abbrev pub mycdrv_write : UserAccess → Disk → Memory → ℕ → ℕ → Access Transfer
mycdrv_write = mycdrv_generic_write

abbrev pub my_init : (memory_allocated registered : Bool) → Run (Status × Bool)
my_init = my_generic_init

abbrev pub my_exit : Bool → Run (Unit {0})
my_exit = my_generic_exit

-- sample_misc_driver.c.
abbrev pub sample_read : UserAccess → Disk → Memory → ℕ → ℕ → Access Transfer
sample_read = Sample.mycdrv_read

abbrev pub sample_write : UserAccess → Disk → Memory → ℕ → ℕ → Access Transfer
sample_write = Sample.mycdrv_write
