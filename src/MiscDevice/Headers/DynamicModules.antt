-- ===== src/MiscDevice/Headers/DynamicModules.antt =====
-- chapter_9_modules/dynamic_module_loading/lab_miscdev.h: the header of the modules of chapter 9.
use linux_foundation_embedde.Base.{ℕ, Bool}
use linux_foundation_embedde.Kernel.UserAccess.{Memory}
use linux_foundation_embedde.Kernel.Ledger.{Run, Status}
use linux_foundation_embedde.CharDevice.{Access, Disk, Transfer}
use linux_foundation_embedde.MiscDevice.{SimpleBuffer}
use linux_foundation_embedde.MiscDevice

abbrev pub mycdrv_generic_open : ℕ → Status × ℕ
mycdrv_generic_open = MiscDevice.mycdrv_generic_open

abbrev pub mycdrv_generic_release : Status
mycdrv_generic_release = MiscDevice.mycdrv_generic_release

abbrev pub mycdrv_generic_read : SimpleBuffer → Disk → Memory → ℕ → ℕ → Access Transfer
mycdrv_generic_read = MiscDevice.mycdrv_generic_read

abbrev pub mycdrv_generic_write : SimpleBuffer → Disk → Memory → ℕ → ℕ → Access Transfer
mycdrv_generic_write = MiscDevice.mycdrv_generic_write

abbrev pub my_generic_init : Bool → Bool → Run (Status × Bool)
my_generic_init = MiscDevice.my_generic_init

abbrev pub my_generic_exit : Bool → Run (Unit {0})
my_generic_exit = MiscDevice.my_generic_exit
