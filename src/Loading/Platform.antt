-- ===== src/Loading/Platform.antt =====
-- chapter_14_platform_drivers/lab_platform.c: a driver that only registers with the platform bus.
use linux_foundation_embedde.Base.{ℕ, Bool, if◌then◌else◌, arith}
use linux_foundation_embedde.Kernel.Ledger.{
  acquire, release, registration, Run, ◌>>=◌, return, call, ask, settle, Status, success, error,
  insmod_rmmod, IsBalanced,
}

unfoldable pub my_platform_probe : Status
my_platform_probe = success

unfoldable pub my_platform_remove : Status
my_platform_remove = success

-- `refused` is the error number of platform_driver_register, where it fails.
unfoldable pub my_init : (registered : Bool) (refused : ℕ) → Run (Status × Unit {0})
my_init registered refused = do
  registered' ← ask (acquire (registration 0)) registered
  return (if registered' then success else error refused, tt)

unfoldable pub my_exit : Unit {0} → Run (Unit {0})
my_exit _ = do call (release (registration 0))

-- Whether the bus takes the driver or not, loading and unloading leave nothing behind.
platform-IsBalanced :
    (registered : Bool) (refused : ℕ)
    → IsBalanced (insmod_rmmod (my_init registered refused) my_exit)
unfolding my_init my_exit settle
platform-IsBalanced registered refused = ground arith
