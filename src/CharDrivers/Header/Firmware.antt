-- ===== src/CharDrivers/Header/Firmware.antt =====
-- chapter_21_firmware/lab_char.h,
-- the header that the firmware driver includes, which names the device custom_firmware: the text of
-- chapter_11_character_drivers/todo/lab_char.h once more.
use linux_foundation_embedde.Base.{ℕ}
use linux_foundation_embedde.Kernel.UserAccess.{Memory, UserAccess}
use linux_foundation_embedde.Kernel.Ledger.{Run, Status}
use linux_foundation_embedde.CharDevice.{Access, Disk, Transfer}
use linux_foundation_embedde.CharDevice.Module.{Replies, Globals}
use linux_foundation_embedde.CharDrivers.Header

abbrev pub mycdrv_generic_open : ℕ → Status × ℕ
mycdrv_generic_open = Header.mycdrv_generic_open

abbrev pub mycdrv_generic_release : Status
mycdrv_generic_release = Header.mycdrv_generic_release

abbrev pub mycdrv_generic_read : UserAccess → Disk → Memory → ℕ → ℕ → Access Transfer
mycdrv_generic_read = Header.mycdrv_generic_read

abbrev pub mycdrv_generic_write : UserAccess → Disk → Memory → ℕ → ℕ → Access Transfer
mycdrv_generic_write = Header.mycdrv_generic_write

abbrev pub my_generic_init : Replies → Run (Status × Globals)
my_generic_init = Header.my_generic_init

abbrev pub my_generic_exit : Globals → Run (Unit {0})
my_generic_exit = Header.my_generic_exit
