-- ===== src/Timers/Probes.antt =====
-- chapter_18_kernel_timers/todo/lab_kprobes_hrtimer.c: three probes that count the calls of the
-- kernel's high resolution timers.
use linux_foundation_embedde.Base.{
  ℕ, ◌+◌, ◌%◌, ◌^◌, Bool, not, arith, ◌==◌, ◌&&◌, ltb, if◌then◌else◌, to_int,
}
use linux_foundation_embedde.Kernel.Ledger.{
  acquire, release, probe, Run, ◌>>=◌, ◌>>◌, return, call, ask, settle, Status, success, error,
  insmod_rmmod, IsBalanced,
}

-- The count after a call, and whether it is printed: the first of each thousand. (An `int` that has
-- become negative has no remainder 1.)
unfoldable pub do_count : ℕ → ℕ × Bool
do_count count = let n = to_int (count + 1) in (n, n % 1000 == 1 && ltb n (2 ^ 31))

-- The probes of hrtimer_start, hrtimer_forward and hrtimer_cancel are 0, 1 and 2; `registered` is
-- the answer of register_kprobe. The result is whether the function returned 0.
unfoldable pub setup_probe : (kp : ℕ) (registered : Bool) → Run Bool
setup_probe kp registered = ask (acquire (probe kp)) registered

unfoldable pub my_init : (start forward cancel : Bool) → Run (Status × Unit {0})
unfolding setup_probe
my_init start forward cancel = do
  started ← setup_probe 0 start
  if not started then return (error 1, tt) else (do
    forwarded ← setup_probe 1 forward
    if not forwarded then (do call (release (probe 0)); return (error 1, tt)) else (do
      cancelled ← setup_probe 2 cancel
      if not cancelled
          then (do call (release (probe 0)); call (release (probe 1)); return (error 1, tt))
          else return (success, tt)))

unfoldable pub my_exit : Unit {0} → Run (Unit {0})
my_exit _ = do call (release (probe 1)); call (release (probe 0)); call (release (probe 2))

-- Whichever probe cannot be registered, loading and unloading leave none behind.
probes-IsBalanced :
    (start forward cancel : Bool) → IsBalanced (insmod_rmmod (my_init start forward cancel) my_exit)
unfolding my_init my_exit settle
probes-IsBalanced start forward cancel = ground arith
