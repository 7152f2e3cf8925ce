-- ===== src/Interrupt/AllLines/Tests.antt =====
-- The theorems on the drivers of all interrupt lines at concrete runs.
use linux_foundation_embedde.Base.{
  ◌^◌, ◌&&◌, not, ltb, ◌↔◌, List, ◌+◌, ◌≤◌, ◌≡◌, true, false, [], ◌∷◌, refl, arith, to_int, here,
  next, Chain, ℕ, Bool, leb, length,
}
use linux_foundation_embedde.Kernel.UserAccess.{zeros}
use linux_foundation_embedde.Kernel.FullAccess.{full_access, full_access-IsFull}
use linux_foundation_embedde.CharDevice.{ok}
use linux_foundation_embedde.Interrupt.AllLines
use linux_foundation_embedde.Interrupt.AllLines.Threaded
use linux_foundation_embedde.Interrupt.AllLines.Dynamic
use linux_foundation_embedde.Interrupt.AllLines.Freeing
use linux_foundation_embedde.Interrupt.AllLines.WorkQueue
use linux_foundation_embedde.Interrupt.AllLines.WorkQueue.Behind
use linux_foundation_embedde.Interrupt.AllLines.Report
use linux_foundation_embedde.Interrupt.AllLines.Report.Shows
use linux_foundation_embedde.Interrupt.Threaded.{in_hand}
use linux_foundation_embedde.Interrupt.Threaded as OneLine

-- Lines 0 to 3 are granted, and one interrupt comes on line 2.
abbrev granted : ℕ → Bool
granted i = leb i 3

abbrev taken : AllLines.State
taken = AllLines.get_irqs granted AllLines.max_irqs 0 AllLines.unloaded

taken_2 : (taken.held 2 ≡ true) × (taken.interrupts 2 ≡ 0)
unfolding AllLines.get_irqs
taken_2 = (refl, refl)

freeup_frees_granted_example :
    let t = AllLines.freeup_irqs AllLines.max_irqs 0 (AllLines.my_interrupt 2 taken) in
    (t.held 2 ≡ true && not (ltb ((AllLines.my_interrupt 2 taken).interrupts 2) (2 ^ 31)))
    × (t.bad_free ≡ false)
freeup_frees_granted_example =
    Freeing.freeup_frees_granted granted (next here (AllLines.Step.interrupt 2 taken taken_2.0)) 2
      (omega arith)

-- An interrupt on line 2, a first read of the counts, and the tasklet before the second.
abbrev counted_once : AllLines.State
counted_once = AllLines.my_interrupt 2 taken

abbrev deferred_once : AllLines.State
deferred_once = AllLines.t_fun 2 counted_once

abbrev row : Report.Row
row = record { line = 2; interrupts = 1; bhs = 1 }

report_shows_counts_example :
    (shown : List Report.Row) × (Report.getinterrupts full_access true
        (Report.disk counted_once zeros)
        (Report.disk deferred_once zeros)
        zeros
        zeros
      ≡ ok (Report.printed shown))
    × Shows.InOrder 0 shown
    × (Shows.IsIn row shown ↔ Shows.IsCounted granted counted_once deferred_once row)
report_shows_counts_example =
    Shows.report_shows_counts full_access full_access-IsFull granted
      (next here (AllLines.Step.interrupt 2 taken taken_2.0))
      (next here (AllLines.Step.tasklet 2 counted_once)) zeros zeros zeros zeros row

-- An interrupt on line 2 wakes its thread, which starts.
abbrev woken : Threaded.State
woken = Threaded.thread_fun 2 (Threaded.my_interrupt 2 (Threaded.loaded granted))

line_refines_one_example :
    Chain OneLine.Step OneLine.my_init (Threaded.line 2 woken)
    × (to_int (woken.arrays.bhs 2 + woken.arrays.nevents 2)
        ≡ to_int (woken.arrays.interrupts 2 + in_hand (woken.pc 2)))
line_refines_one_example = Threaded.line_refines_one granted 2 (omega arith) refl (
    next (next here (Threaded.Step.interrupt 2 (Threaded.loaded granted) taken_2.0))
      (Threaded.Step.thread 2 _))

-- A block waits for line 2.
abbrev one_block : Dynamic.State
one_block = record { arrays = counted_once; waiting = 2 ∷ []; allocated = 1 }

all_dynamic_accounts_example :
    (one_block.allocated ≡ length one_block.waiting)
    × (to_int (one_block.arrays.bhs 2 + Dynamic.count 2 one_block.waiting)
        ≡ one_block.arrays.interrupts 2)
unfolding Dynamic.my_interrupt AllLines.my_interrupt
all_dynamic_accounts_example =
    Dynamic.all_dynamic_accounts granted {s = one_block}
      (next here (Dynamic.Step.interrupt 2 (Dynamic.loaded granted) taken_2.0 refl)) 2 (omega arith)
      refl

all_work_behind_example :
    WorkQueue.total granted
        (WorkQueue.my_interrupt 2 (WorkQueue.loaded granted)).arrays.bhs
        AllLines.max_irqs
      + 1
    ≤ WorkQueue.total granted
        (WorkQueue.my_interrupt 2 (WorkQueue.loaded granted)).arrays.interrupts
        AllLines.max_irqs
unfolding WorkQueue.my_interrupt
all_work_behind_example = Behind.all_work_behind granted (
    next here (
      WorkQueue.Step.interrupt 2 (WorkQueue.loaded granted) (omega arith) refl
        (omega (arith, Behind.none_came granted))))
