-- ===== src/CharDrivers/Char.antt =====
-- chapter_11_character_drivers/todo/lab_char.c: the improved sample driver with a counter of its opens. Its
-- functions are, statement by statement, those of improve_char_driver.c.
use linux_foundation_embedde.Base.{ℕ}
use linux_foundation_embedde.Kernel.UserAccess.{Memory, UserAccess}
use linux_foundation_embedde.Kernel.Ledger.{Run, Status}
use linux_foundation_embedde.CharDevice.{Access, Disk, Transfer}
use linux_foundation_embedde.CharDrivers.Improve
use linux_foundation_embedde.CharDrivers.Improve.{Replies, Globals}

abbrev pub mycdrv_open : ℕ → Status × ℕ
mycdrv_open = Improve.mycdrv_open

abbrev pub mycdrv_read : UserAccess → Disk → Memory → ℕ → ℕ → Access Transfer
mycdrv_read = Improve.mycdrv_read

abbrev pub mycdrv_write : UserAccess → Disk → Memory → ℕ → ℕ → Access Transfer
mycdrv_write = Improve.mycdrv_write

abbrev pub my_init : Replies → Run (Status × Globals)
my_init = Improve.my_init

abbrev pub my_exit : Globals → Run (Unit {0})
my_exit = Improve.my_exit
