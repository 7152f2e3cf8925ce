-- ===== src/CharDrivers/Header.antt =====
-- chapter_11_character_drivers/todo/lab_char.h, the header that lab_with_header.c and the drivers of the other
-- chapters include (with their own names of the device): the functions of generic_char_driver.h. The headers of those
-- chapters are the modules below.
pub mod KernelTimers
pub mod Ioctls
pub mod Firmware
pub mod Waiting
pub mod Deferrable
use linux_foundation_embedde.Base.{ℕ}
use linux_foundation_embedde.Kernel.UserAccess.{Memory, UserAccess}
use linux_foundation_embedde.Kernel.Ledger.{Run, Status}
use linux_foundation_embedde.CharDevice.{Access, Disk, Transfer}
use linux_foundation_embedde.CharDevice.Module.{Replies, Globals}
use linux_foundation_embedde.CharDevice
use linux_foundation_embedde.CharDevice.Module

abbrev pub mycdrv_generic_open : ℕ → Status × ℕ
mycdrv_generic_open = CharDevice.mycdrv_generic_open

abbrev pub mycdrv_generic_release : Status
mycdrv_generic_release = CharDevice.mycdrv_generic_release

abbrev pub mycdrv_generic_read : UserAccess → Disk → Memory → ℕ → ℕ → Access Transfer
mycdrv_generic_read = CharDevice.mycdrv_generic_read

abbrev pub mycdrv_generic_write : UserAccess → Disk → Memory → ℕ → ℕ → Access Transfer
mycdrv_generic_write = CharDevice.mycdrv_generic_write

abbrev pub my_generic_init : Replies → Run (Status × Globals)
my_generic_init = Module.my_generic_init

abbrev pub my_generic_exit : Globals → Run (Unit {0})
my_generic_exit = Module.my_generic_exit
