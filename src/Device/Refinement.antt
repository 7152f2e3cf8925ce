-- ===== src/Device/Refinement.antt =====
-- The three devices of the course over a RAM disk: generic_char_driver.h and put_and_get_driver.c of
-- get_and_put_user, and misc_dev.h of copy_to_from, all in chapter_13_mem_user_and_kernel_space.
use linux_foundation_embedde.Base.{◌≡◌, List}
use linux_foundation_embedde.Kernel.UserAccess.{UserAccess}
use linux_foundation_embedde.Kernel.FullAccess.{IsFull}
use linux_foundation_embedde.CharDevice.{Access, ok}
use linux_foundation_embedde.CharDevice.Bounds.{IsValid}
use linux_foundation_embedde.MiscDevice.{SimpleBuffer, misc_device}
use linux_foundation_embedde.Device.Files.{
  Call, Log, Opened, run, replay, view, opened, AreSmall, AreInside, run_refines,
}
use linux_foundation_embedde.Device.Drivers.{generic_device, bytewise_device}

-- The drivers refine a file: for every list of calls, from positions inside the disk and with a user's
-- memory that can be accessed, each of the three drivers never leaves the disk, and what its calls
-- return, the bytes that they hand out and the disk and the positions at the end are those of a file
-- of the disk's size. So the drivers cannot be told apart.
pub drivers_refine_file :
    (u : UserAccess) (full : IsFull u) (k : SimpleBuffer) (calls : List Call) (s : Opened)
    → IsValid s.disk
    → AreInside s
    → AreSmall calls
    → let (f, log) = replay calls (view s) in
      let file : Access (Opened × Log) = ok (opened s.disk.allocated f, log) in
      (run (generic_device u full) calls s ≡ file)
      × (run bytewise_device calls s ≡ file)
      × (run (misc_device k) calls s ≡ file)
drivers_refine_file u full k calls s v inside small = (
  run_refines (generic_device u full) calls s v inside small,
  run_refines bytewise_device calls s v inside small,
  run_refines (misc_device k) calls s v inside small,
)
