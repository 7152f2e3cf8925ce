-- ===== src/Loading/Firmware.antt =====
-- chapter_21_firmware/lab_firmware.c and lab_firmware_chardev.c: a device that requests a firmware
-- file, one registered by itself and one over the generic character device.
use linux_foundation_embedde.Base.{◌≡◌, ◌↔◌, Bool, true, not, ◌&&◌, ◌||◌, if◌then◌else◌, arith}
use linux_foundation_embedde.Kernel.Ledger.{
  acquire, release, device, firmware, Run, ◌>>=◌, ◌>>◌, return, call, ask, settle, Status, success,
  error, is_success, insmod_rmmod, IsBalanced,
}
use linux_foundation_embedde.CharDevice.Module.{Replies, Globals, my_generic_init, my_generic_exit}

-- `found` is the answer of request_firmware.
unfoldable pub my_init : (registered found : Bool) → Run (Status × Unit {0})
my_init registered found = do
  inserted ← ask (acquire device) registered
  if not inserted then return (error 1, tt) else (do
    fw ← ask (acquire firmware) found
    if not fw then (do call (release device); return (error 1, tt)) else return (success, tt))

unfoldable pub my_exit : Unit {0} → Run (Unit {0})
my_exit _ = do call (release firmware); call (release device)

unfoldable pub chardev_init : Replies → (found : Bool) → Run (Status × Globals)
unfolding my_generic_init
chardev_init k found = do
  (status, globals) ← my_generic_init k
  if not (is_success status) then return (error 1, globals) else (do
    fw ← ask (acquire firmware) found
    if not fw then return (error 1, globals) else return (success, globals))

unfoldable pub chardev_exit : Globals → Run (Unit {0})
unfolding my_generic_exit
chardev_exit g = do call (release firmware); my_generic_exit g

-- The driver with a device of its own always leaves nothing behind. The one over the character
-- device leaves nothing behind exactly if the firmware was found or the device could not be set up:
-- it forgets the device where the firmware is missing.
firmware-IsBalanced_iff :
    (registered found : Bool) (k : Replies)
    → IsBalanced (insmod_rmmod (my_init registered found) my_exit)
      × (IsBalanced (insmod_rmmod (chardev_init k found) chardev_exit)
          ↔ (found || not (k.region_free && k.cdev_allocated && k.cdev_added) ≡ true))
unfolding my_init my_exit chardev_init chardev_exit settle
firmware-IsBalanced_iff registered found k = (ground arith, ground arith)
