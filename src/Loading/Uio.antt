-- ===== src/Loading/Uio.antt =====
-- chapter_23_deferrable_functions/lab_uio_api.c: a device and a struct uio_info, registered with the
-- UIO core.
use linux_foundation_embedde.Base.{
  ℕ, ◌+◌, to_int, ◌≡◌, ◌↔◌, Bool, true, false, not, ◌&&◌, ◌||◌, if◌then◌else◌, arith,
}
use linux_foundation_embedde.Kernel.Ledger.{
  acquire, release, operate, kfree, device, registration, memory, Run, ◌>>=◌, ◌>>◌, return, call,
  ask, settle, Status, success, error, insmod_rmmod, IsBalanced,
}

-- The static count of my_handler, an `int`; it returns IRQ_HANDLED.
unfoldable pub my_handler : ℕ → ℕ
my_handler count = to_int (count + 1)

-- The answers of the two kzalloc, of device_register and of uio_register_device.
pub record Replies : Type 0 where
  pub dev_allocated : Bool
  pub device_registered : Bool
  pub info_allocated : Bool
  pub uio_registered : Bool

-- `dev` and `info` are the memory blocks 0 and 1.
unfoldable pub my_init : Replies → Run (Status × (Bool × Bool))
my_init k = do
  dev ← ask (acquire (memory 0)) k.dev_allocated
  call (operate (memory 0) true)
  registered ← ask (acquire device) k.device_registered
  if not registered then (do call (kfree 0 dev); return (error 1, (dev, false))) else (do
    info ← ask (acquire (memory 1)) k.info_allocated
    call (operate (memory 1) true)
    registered' ← ask (acquire (registration 0)) k.uio_registered
    if not registered'
        then (do
          call (release device)
          call (kfree 0 dev)
          call (kfree 1 info)
          return (error 1, (dev, info)))
        else return (success, (dev, info)))

unfoldable pub my_exit : Bool × Bool → Run (Unit {0})
my_exit (dev, info) = do
  call (release (registration 0))
  call (release device)
  call (kfree 1 info)
  call (kfree 0 dev)

-- Loading and unloading keep to the rules, and leave nothing behind, exactly if the two blocks that
-- are written to were allocated; whether the registrations fail does not matter.
pub uio_api-IsBalanced_iff :
    (k : Replies)
    → IsBalanced (insmod_rmmod (my_init k) my_exit)
      ↔ (k.dev_allocated && (not k.device_registered || k.info_allocated) ≡ true)
unfolding my_init my_exit settle
uio_api-IsBalanced_iff k = ground arith
