-- ===== src/Timers/TimerProbes.antt =====
-- chapter_18_kernel_timers/todo/lab_kprobes.c: probes on the functions of the kernel's timers, four
-- on a kernel for several processors and three on others.
use linux_foundation_embedde.Base.{
  ℕ, ◌+◌, ◌%◌, ◌^◌, Bool, not, ◌&&◌, ◌==◌, ltb, if◌then◌else◌, to_int, arith,
}
use linux_foundation_embedde.Kernel.Ledger.{
  acquire, release, probe, Run, ◌>>=◌, ◌>>◌, return, call, ask, settle, Status, success, error,
  insmod_rmmod, IsBalanced,
}

-- The count after a call, and whether it is printed: the first of each hundred. (An `int` that has
-- become negative has no remainder 1.)
unfoldable pub do_count : ℕ → ℕ × Bool
do_count count = let n = to_int (count + 1) in (n, n % 100 == 1 && ltb n (2 ^ 31))

-- The probes of add_timer, mod_timer, del_timer and del_timer_sync are 0 to 3; `registered` is the
-- answer of register_kprobe. The result is whether the function returned 0.
unfoldable pub setup_probe : (kp : ℕ) (registered : Bool) → Run Bool
setup_probe kp registered = ask (acquire (probe kp)) registered

-- `smp` is CONFIG_SMP.
unfoldable pub my_init : (smp add mod' del del_sync : Bool) → Run (Status × Unit {0})
unfolding setup_probe
my_init smp add mod' del del_sync = do
  added ← setup_probe 0 add
  if not added then return (error 1, tt) else (do
    modified ← setup_probe 1 mod'
    if not modified then (do call (release (probe 0)); return (error 1, tt)) else (do
      deleted ← setup_probe 2 del
      if not deleted
          then (do call (release (probe 0)); call (release (probe 1)); return (error 1, tt))
          else if smp
          then (do
            synced ← setup_probe 3 del_sync
            if not synced
                then (do
                  call (release (probe 0))
                  call (release (probe 1))
                  call (release (probe 2))
                  return (error 1, tt))
                else return (success, tt))
          else return (success, tt)))

unfoldable pub my_exit : (smp : Bool) → Unit {0} → Run (Unit {0})
my_exit smp _ = do
  call (release (probe 1))
  call (release (probe 0))
  call (release (probe 2))
  if smp then call (release (probe 3)) else return tt

-- On either kind of kernel, and whichever probe cannot be registered, loading and unloading leave
-- none behind.
pub timer_probes-IsBalanced :
    (smp add mod' del del_sync : Bool)
    → IsBalanced (insmod_rmmod (my_init smp add mod' del del_sync) (my_exit smp))
unfolding my_init my_exit settle
timer_probes-IsBalanced smp add mod' del del_sync = ground arith
