-- ===== src/CharDevice/Module.antt =====
-- my_generic_init and my_generic_exit of generic_char_driver.h.
use linux_foundation_embedde.Base.{Bool, true, false, not, ◌≡◌, ◌&&◌, if◌then◌else◌, arith}
use linux_foundation_embedde.Kernel.Ledger.{
  acquire, release, operate, kfree, region, cdev, class, device, Run, ◌>>=◌, ◌>>◌, return, call,
  ask, Status, success, error, insmod_rmmod, IsBalanced, settle, memory,
}

-- The kernel's answers to the calls that can fail.
pub record Replies : Type 0 where
  pub region_free : Bool
  pub cdev_allocated : Bool
  pub memory_allocated : Bool
  pub cdev_added : Bool

-- `my_cdev` and `ramdisk`, by whether they are not NULL.
pub record Globals : Type 0 where
  pub my_cdev : Bool
  pub ramdisk : Bool

unfoldable pub my_generic_init : Replies → Run (Status × Globals)
my_generic_init k = do
  registered ← ask (acquire region) k.region_free
  if not registered then return (error 1, record { my_cdev = false; ramdisk = false }) else (do
    my_cdev ← ask (acquire cdev) k.cdev_allocated
    if not my_cdev
        then (do
          call (release region)
          return (error 1, record { my_cdev = false; ramdisk = false }))
        else (do
          call (operate cdev true)
          ramdisk ← ask (acquire (memory 0)) k.memory_allocated
          added ← ask (operate cdev) k.cdev_added
          if not added
              then (do
                call (release cdev)
                call (release region)
                call (kfree 0 ramdisk)
                return (error 1, record { my_cdev = true; ramdisk = ramdisk }))
              else (do
                call (acquire class true)
                call (acquire device true)
                return (success, record { my_cdev = true; ramdisk = ramdisk }))))

unfoldable pub my_generic_exit : Globals → Run (Unit {0})
my_generic_exit g = do
  call (release device)
  call (release class)
  if g.my_cdev then call (release cdev) else return tt
  call (release region)
  call (kfree 0 g.ramdisk)

-- Whatever the kernel answers, loading the module and unloading it leaves nothing behind: a failed
-- initialisation has given back what it acquired, and after a successful one the exit function does.
generic_module-IsBalanced :
    (k : Replies) → IsBalanced (insmod_rmmod (my_generic_init k) my_generic_exit)
unfolding my_generic_init my_generic_exit settle
generic_module-IsBalanced k = ground arith

-- The initialisation succeeds exactly when the region, the cdev and its registration do, and
-- returns -1 otherwise. It does not look at what kmalloc answered: after a success the RAM disk is
-- the NULL pointer if the allocation failed.
generic_init_result :
    (k : Replies)
    → (my_generic_init k).0 ≡ (
      if k.region_free && k.cdev_allocated && k.cdev_added then success else error 1,
      record {
        my_cdev = k.region_free && k.cdev_allocated;
        ramdisk = k.region_free && k.cdev_allocated && k.memory_allocated;
      },
    )
unfolding my_generic_init
generic_init_result k = ground arith
