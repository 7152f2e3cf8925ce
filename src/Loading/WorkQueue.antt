-- ===== src/Loading/WorkQueue.antt =====
-- How chapter_23_deferrable_functions/lab_workqueue_private.c makes its own work queue;
-- lab_workqueue_newapi.c does the same with alloc_workqueue.
use linux_foundation_embedde.Base.{◌≡◌, ◌↔◌, Bool, arith}
use linux_foundation_embedde.Kernel.Ledger.{
  acquire, release, workqueue, Run, ◌>>◌, call, settle, Status, insmod_rmmod, IsBalanced,
}
use linux_foundation_embedde.MiscDevice.{my_generic_init, my_generic_exit}

-- `created` is the answer of create_workqueue, which is not looked at.
unfoldable pub my_init : (created memory_allocated registered : Bool) → Run (Status × Bool)
unfolding my_generic_init
my_init created memory_allocated registered = do
  call (acquire workqueue created)
  my_generic_init memory_allocated registered

unfoldable pub my_exit : Bool → Run (Unit {0})
unfolding my_generic_exit
my_exit ramdisk = do call (release workqueue); my_generic_exit ramdisk

-- Loading and unloading leave nothing behind exactly if the work queue was made and the device
-- registered, or neither: a queue stays when the registration fails, and one that could not be made
-- is destroyed all the same.
pub workqueue-IsBalanced_iff :
    (created memory_allocated registered : Bool)
    → IsBalanced (insmod_rmmod (my_init created memory_allocated registered) my_exit)
      ↔ (created ≡ registered)
unfolding my_init my_exit settle
workqueue-IsBalanced_iff created memory_allocated registered = ground arith
