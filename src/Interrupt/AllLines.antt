-- ===== src/Interrupt/AllLines.antt =====
-- chapter_23_deferrable_functions/lab_all_interrupt.h: a driver that asks for every interrupt line of
-- the machine and counts on each; with the handler and the tasklet of lab_all_tasklet.c.
pub mod Freeing
pub mod Report
pub mod Threaded
pub mod Dynamic
pub mod DynamicWork
pub mod Thread
pub mod WorkQueue
mod Tests
use linux_foundation_embedde.Base.{
  ℕ, zero, suc, ◌+◌, ◌-◌, ◌^◌, ◌≤◌, ◌<◌, ◌≡◌, ◌↔◌, ◌&&◌, ◌||◌, not, Bool, true, false, ltb, leb,
  ◌==◌, if◌then◌else◌, to_int, arith, refl, subst, Chain, Chain-invariant,
}
use native.Mathlib.Decide.{dec_lt}
use linux_foundation_embedde.Kernel.Ledger.{
  acquire, release, kfree, misc, memory, Run, ◌>>=◌, ◌>>◌, return, call, ask, settle, Status,
  success, error, insmod_rmmod, IsBalanced,
}

abbrev pub max_irqs : ℕ
max_irqs = 256

-- The arrays `interrupts`, `bhs` and `nevents` of atomic_t, which lines the driver holds, and
-- whether it has freed one that it did not hold.
pub record State : Type 0 where
  pub interrupts : ℕ → ℕ
  pub bhs : ℕ → ℕ
  pub nevents : ℕ → ℕ
  pub held : ℕ → Bool
  pub bad_free : Bool

abbrev pub update {ℓ} : {A : Type ℓ} → (ℕ → A) → ℕ → A → ℕ → A
update f i a j = if j == i then a else f j

-- -1, as the flag of a line that was not granted.
abbrev pub minus_one : ℕ
minus_one = 2 ^ 32 - 1

-- `granted` are the answers of request_irq. No interrupt comes between the call and the flag.
get_irq : (granted : ℕ → Bool) → ℕ → State → State
get_irq granted irq s = record s {
  interrupts = update s.interrupts irq (if granted irq then 0 else minus_one);
  bhs = update s.bhs irq 0;
  nevents = update s.nevents irq 0;
  held = update s.held irq (granted irq);
}

-- The loop of get_irqs, with the rounds left.
unfoldable pub get_irqs : (granted : ℕ → Bool) → (rounds irq : ℕ) → State → State
unfolding get_irq
get_irqs granted zero irq s = s
get_irqs granted (suc k) irq s = get_irqs granted k (suc irq) (get_irq granted irq s)

free_irq : ℕ → State → State
free_irq irq s = record s {
  held = update s.held irq false;
  bad_free = s.bad_free || not (s.held irq);
}

-- `atomic_read (&interrupts[irq]) >= 0`, of an `int`.
abbrev pub registered : ℕ → Bool
registered n = ltb n (2 ^ 31)

free_one : ℕ → State → State
unfolding free_irq
free_one irq s = if registered (s.interrupts irq) then free_irq irq s else s

-- The loop of freeup_irqs, with the rounds left.
unfoldable pub freeup_irqs : (rounds irq : ℕ) → State → State
unfolding free_one
freeup_irqs zero irq s = s
freeup_irqs (suc k) irq s = freeup_irqs k (suc irq) (free_one irq s)

-- The handler counts on its line, and the tasklet on the line that it finds in `my_data`.
unfoldable pub my_interrupt : ℕ → State → State
my_interrupt irq s = record s {
  interrupts = update s.interrupts irq (to_int (s.interrupts irq + 1));
}

unfoldable pub t_fun : ℕ → State → State
t_fun irq s = record s { bhs = update s.bhs irq (to_int (s.bhs irq + 1)) }

-- What happens between loading and unloading: interrupts on lines that the driver holds, any
-- number of them, and runs of the tasklet.
pub data Step : State → State → Type 0 where
  interrupt : (irq : ℕ) (s : State) → s.held irq ≡ true → Step s (my_interrupt irq s)
  tasklet : (irq : ℕ) (s : State) → Step s (t_fun irq s)

pub get_irqs_lem :
    (granted : ℕ → Bool) (k irq : ℕ) (s : State) (i : ℕ)
    → let t = get_irqs granted k irq s in
      (t.held i ≡ (if leb irq i && ltb i (irq + k) then granted i else s.held i))
      × (t.interrupts i ≡ (
          if leb irq i && ltb i (irq + k)
          then (if granted i then 0 else minus_one)
          else s.interrupts i))
      × (t.bad_free ≡ s.bad_free)
unfolding get_irqs
get_irqs_lem granted zero irq s i = ground arith
get_irqs_lem granted (suc k) irq s i =
    ground (arith, get_irqs_lem granted k (suc irq) (get_irq granted irq s) i)

pub get_irqs_zero :
    (granted : ℕ → Bool) (k irq : ℕ) (s : State) (i : ℕ)
    → s.bhs i ≡ 0
    → s.nevents i ≡ 0
    → let t = get_irqs granted k irq s in (t.bhs i ≡ 0) × (t.nevents i ≡ 0)
unfolding get_irqs
get_irqs_zero granted zero irq s i a b = (a, b)
get_irqs_zero granted (suc k) irq s i a b =
    get_irqs_zero granted k (suc irq) (get_irq granted irq s) i (ground arith) (ground arith)

-- The arrays before loading: no line is held.
abbrev pub unloaded : State
unloaded = record {
  interrupts = λ i. 0;
  bhs = λ i. 0;
  nevents = λ i. 0;
  held = λ i. false;
  bad_free = false;
}

-- my_generic_init and my_generic_exit, with the lines left to get_irqs and freeup_irqs: the memory
-- block 0 is the RAM disk and 1 the array `nevents`. -EBUSY is 16.
unfoldable pub my_generic_init :
    (memory_allocated registered_misc array_allocated : Bool) → Run (Status × (Bool × Bool))
my_generic_init memory_allocated registered_misc array_allocated = do
  ramdisk ← ask (acquire (memory 0)) memory_allocated
  ok ← ask (acquire misc) registered_misc
  if not ok then return (error 16, (ramdisk, false)) else (do
    nevents ← ask (acquire (memory 1)) array_allocated
    return (success, (ramdisk, nevents)))

unfoldable pub my_generic_exit : Bool × Bool → Run (Unit {0})
my_generic_exit (ramdisk, nevents) = do
  call (release misc)
  call (kfree 0 ramdisk)
  call (kfree 1 nevents)

-- Loading and unloading leave nothing behind exactly if the RAM disk was not allocated or the device
-- could be registered: the error path of the registration does not free the RAM disk.
all_lines-IsBalanced_iff :
    (memory_allocated registered_misc array_allocated : Bool)
    → IsBalanced (
        insmod_rmmod
          (my_generic_init memory_allocated registered_misc array_allocated)
          my_generic_exit)
      ↔ (not memory_allocated || registered_misc ≡ true)
unfolding my_generic_init my_generic_exit settle
all_lines-IsBalanced_iff memory_allocated registered_misc array_allocated = ground arith
