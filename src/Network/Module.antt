-- ===== src/Network/Module.antt =====
-- my_init and my_exit of lab_transmit.c; lab_receive.c and lab_transmit_simple.c repeat them.
use linux_foundation_embedde.Base.{◌≡◌, ◌↔◌, arith, Bool, true, not, if◌then◌else◌}
use linux_foundation_embedde.Kernel.Ledger.{
  acquire, release, operate, netdev, registration, Run, ◌>>=◌, ◌>>◌, return, call, ask, settle,
  Status, success, error, insmod_rmmod, IsBalanced,
}

-- The answers of alloc_netdev, which is not looked at, and of register_netdev.
unfoldable pub my_init : (allocated registered : Bool) → Run (Status × Unit {0})
my_init allocated registered = do
  call (acquire (netdev 0) allocated)
  call (operate (netdev 0) registered)
  ok ← ask (acquire (registration 0)) registered
  if not ok then (do call (release (netdev 0)); return (error 1, tt)) else return (success, tt)

unfoldable pub my_exit : Unit {0} → Run (Unit {0})
my_exit _ = do call (release (registration 0)); call (release (netdev 0))

-- Loading and unloading leave nothing behind exactly if the device could be allocated: the NULL
-- pointer of a failed alloc_netdev goes into register_netdev.
network-IsBalanced_iff :
    (allocated registered : Bool)
    → IsBalanced (insmod_rmmod (my_init allocated registered) my_exit) ↔ (allocated ≡ true)
unfolding my_init my_exit settle
network-IsBalanced_iff allocated registered = ground arith
