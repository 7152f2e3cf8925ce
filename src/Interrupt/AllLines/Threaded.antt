-- ===== src/Interrupt/AllLines/Threaded.antt =====
-- chapter_23_deferrable_functions/lab_all_threaded.c: every line has a thread of its own, which the
-- kernel wakes for the line's interrupts.
use linux_foundation_embedde.Base.{
  ℕ, ◌+◌, ◌-◌, ◌^◌, ◌<◌, ◌≡◌, Bool, true, false, ◌==◌, if◌then◌else◌, to_int, arith, refl, sym,
  subst, Chain, here, next,
}
use linux_foundation_embedde.Interrupt.AllLines
use linux_foundation_embedde.Interrupt.AllLines.{
  update, max_irqs, get_irqs, get_irqs_lem, get_irqs_zero, unloaded,
}
use linux_foundation_embedde.Interrupt.Threaded
use linux_foundation_embedde.Interrupt.Threaded.{Pc, idle, loop, counted, in_hand}

-- The arrays; for each line what IRQ_WAKE_THREAD sets, and where the thread of the line stands.
pub record State : Type 0 where
  pub arrays : AllLines.State
  pub wake : ℕ → Bool
  pub pc : ℕ → Pc

unfoldable pub my_interrupt : ℕ → State → State
my_interrupt irq s = record s {
  arrays = record s.arrays {
    interrupts = update s.arrays.interrupts irq (to_int (s.arrays.interrupts irq + 1));
    nevents = update s.arrays.nevents irq (to_int (s.arrays.nevents irq + 1));
  };
  wake = update s.wake irq true;
}

-- One access of thread_fun on a line, which the kernel starts if it is to wake.
advance : Pc → ℕ → State → State
advance idle irq s =
    if s.wake irq then record s { wake = update s.wake irq false; pc = update s.pc irq loop } else s
advance loop irq s = record s {
  arrays = record s.arrays { bhs = update s.arrays.bhs irq (to_int (s.arrays.bhs irq + 1)) };
  pc = update s.pc irq counted;
}
advance counted irq s =
    let left = to_int (s.arrays.nevents irq + 2 ^ 32 - 1) in
    record s {
      arrays = record s.arrays { nevents = update s.arrays.nevents irq left };
      pc = update s.pc irq (if left == 0 then idle else loop);
    }

unfoldable pub thread_fun : ℕ → State → State
unfolding advance
thread_fun irq s = advance (s.pc irq) irq s

-- After get_irqs, with the lines that were granted.
abbrev pub loaded : (granted : ℕ → Bool) → State
loaded granted = record {
  arrays = get_irqs granted max_irqs 0 unloaded;
  wake = λ i. false;
  pc = λ i. idle;
}

-- An interrupt on a line that the driver holds, or an access of any thread.
pub data Step : State → State → Type 0 where
  interrupt : (irq : ℕ) (s : State) → s.arrays.held irq ≡ true → Step s (my_interrupt irq s)
  thread : (irq : ℕ) (s : State) → Step s (thread_fun irq s)

-- What concerns one line, as the state of the driver of one line.
abbrev pub line : ℕ → State → Threaded.State
line i s = record {
  counter_th = s.arrays.interrupts i;
  counter_bh = s.arrays.bhs i;
  nevents = s.arrays.nevents i;
  wake = s.wake i;
  pc = s.pc i;
}

line-my_interrupt :
    (i irq : ℕ) (s : State)
    → line i (my_interrupt irq s)
      ≡ (if i == irq then Threaded.my_interrupt (line i s) else line i s)
unfolding my_interrupt Threaded.my_interrupt
line-my_interrupt i irq s = ground arith

line-advance :
    (p : Pc) (i irq : ℕ) (s : State)
    → s.pc irq ≡ p
    → line i (advance p irq s) ≡ (if i == irq then Threaded.thread_fun (line i s) else line i s)
unfolding advance Threaded.thread_fun
line-advance idle i irq s e = ground arith
line-advance loop i irq s e = ground arith
line-advance counted i irq s e = ground arith

-- A step that is the line's own, or that leaves the line as it is.
follow :
    (own : Bool) {a b u : Threaded.State}
    → Chain Threaded.Step Threaded.my_init a
    → Threaded.Step a u
    → b ≡ (if own then u else a)
    → Chain Threaded.Step Threaded.my_init b
follow true c st e = subst (Chain Threaded.Step Threaded.my_init) (sym e) (next c st)
follow false c st e = subst (Chain Threaded.Step Threaded.my_init) (sym e) c

module _ (granted : ℕ → Bool) (i : ℕ) (inside : i < max_irqs) (mine : granted i ≡ true) where
  line-loaded : line i (loaded granted) ≡ Threaded.my_init
  line-loaded = ground (
    arith,
    get_irqs_lem granted max_irqs 0 unloaded i,
    get_irqs_zero granted max_irqs 0 unloaded i refl refl,
  )

  -- The lines are independent: whatever happens on the others, what happens on a line that was
  -- granted is a run of the driver of one line. So in every reachable state the events counted on
  -- the line and those left over make up its interrupts, but for one that is counted and about to be
  -- taken off (modulo 2 ^ 32).
  pub line_refines_one :
      {s : State}
      → Chain Step (loaded granted) s
      → Chain Threaded.Step Threaded.my_init (line i s)
        × (to_int (s.arrays.bhs i + s.arrays.nevents i)
            ≡ to_int (s.arrays.interrupts i + in_hand (s.pc i)))
  line_refines_one c = let r = run c in (r, Threaded.threaded_accounts r)
    where
      run :
          {t : State}
          → Chain Step (loaded granted) t
          → Chain Threaded.Step Threaded.my_init (line i t)
      run here = subst (Chain Threaded.Step Threaded.my_init) (sym line-loaded) here
      run (next c (interrupt irq t h)) =
          follow (i == irq) (run c) (Threaded.Step.interrupt (line i t)) (line-my_interrupt i irq t)
      run (next c (thread irq t)) =
          follow (i == irq) (run c) (Threaded.Step.thread (line i t))
            (unfold thread_fun in line-advance (t.pc irq) i irq t refl)
