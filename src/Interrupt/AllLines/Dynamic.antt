-- ===== src/Interrupt/AllLines/Dynamic.antt =====
-- chapter_23_deferrable_functions/lab_all_tasklet_dynamic.c: each interrupt allocates a tasklet of its
-- own that keeps the line; lab_all_workqueue_dynamic.c has the same functions over works.
use linux_foundation_embedde.Base.{
  ℕ, suc, ◌+◌, ◌-◌, ◌<◌, ◌≡◌, Bool, true, false, Option, none, some, List, [], ◌∷◌, ◌++◌, length,
  length-append, ◌==◌, if◌then◌else◌, to_int, arith, refl, Chain, Chain-invariant,
}
use linux_foundation_embedde.Interrupt.AllLines
use linux_foundation_embedde.Interrupt.AllLines.{
  update, max_irqs, get_irqs, get_irqs_lem, get_irqs_zero, unloaded,
}

-- The arrays; the lines of the blocks that wait; how many blocks are allocated.
pub record State : Type 0 where
  pub arrays : AllLines.State
  pub waiting : List ℕ
  pub allocated : ℕ

-- The answer of kmalloc is not looked at: the handler writes through a NULL pointer, which is `none`.
unfoldable pub my_interrupt : (irq : ℕ) (answer : Bool) → State → Option State
my_interrupt irq false s = none
my_interrupt irq true s = some (record {
  arrays = record s.arrays {
    interrupts = update s.arrays.interrupts irq (to_int (s.arrays.interrupts irq + 1));
  };
  waiting = irq ∷ s.waiting;
  allocated = s.allocated + 1;
})

-- The deferred function of a block that waits, between others: it counts on the block's line and
-- frees the block.
unfoldable pub t_fun : (before : List ℕ) (irq : ℕ) (after : List ℕ) → State → State
t_fun before irq after s = record {
  arrays = record s.arrays { bhs = update s.arrays.bhs irq (to_int (s.arrays.bhs irq + 1)) };
  waiting = before ++ after;
  allocated = s.allocated - 1;
}

abbrev pub loaded : (granted : ℕ → Bool) → State
loaded granted = record {
  arrays = get_irqs granted max_irqs 0 unloaded;
  waiting = [];
  allocated = 0;
}

-- The kernel may run any of those that wait, as works on several processors do.
pub data Step : State → State → Type 0 where
  interrupt :
      (irq : ℕ) (s : State) {t : State}
      → s.arrays.held irq ≡ true
      → my_interrupt irq true s ≡ some t
      → Step s t
  deferred :
      (before : List ℕ) (irq : ℕ) (after : List ℕ) (s : State)
      → s.waiting ≡ before ++ (irq ∷ after)
      → Step s (t_fun before irq after s)

-- How many blocks wait for a line.
abbrev pub count : ℕ → List ℕ → ℕ
count i [] = 0
count i (x ∷ xs) = if i == x then suc (count i xs) else count i xs

count-append : (i : ℕ) (xs ys : List ℕ) → count i (xs ++ ys) ≡ count i xs + count i ys
count-append i [] ys = omega arith
count-append i (x ∷ xs) ys = ground (arith, count-append i xs ys)

pub record Inv (i : ℕ) (s : State) : Type 0 where
  pub owned : s.allocated ≡ length s.waiting
  pub accounts : to_int (s.arrays.bhs i + count i s.waiting) ≡ s.arrays.interrupts i

Step-Inv : (i : ℕ) (s t : State) → Step s t → Inv i s → Inv i t
unfolding my_interrupt t_fun
Step-Inv i s t (interrupt irq _ h e) v = ground (arith, v.owned, v.accounts)
Step-Inv i s t (deferred before irq after _ e) v =
    let owned : s.allocated ≡ length (before ++ (irq ∷ after)) = rw e at v.owned in
    let accounts : to_int (s.arrays.bhs i + count i (before ++ (irq ∷ after)))
        ≡ s.arrays.interrupts i =
      rw e at v.accounts in
    record {
      owned = omega (arith, owned, length-append before (irq ∷ after), length-append before after);
      accounts =
          ground
            (arith, accounts, count-append i before (irq ∷ after), count-append i before after);
    }

-- Every interrupt is counted on its own line: in every reachable state, and in whatever order the
-- deferred functions run, there are as many blocks allocated as wait, and on each line that was
-- granted the functions that ran and those that wait make up its interrupts (modulo 2 ^ 32).
pub all_dynamic_accounts :
    (granted : ℕ → Bool) {s : State}
    → Chain Step (loaded granted) s
    → (i : ℕ) → i < max_irqs
    → granted i ≡ true
    → (s.allocated ≡ length s.waiting)
      × (to_int (s.arrays.bhs i + count i s.waiting) ≡ s.arrays.interrupts i)
all_dynamic_accounts granted c i inside mine =
    let begin : Inv i (loaded granted) = record {
      owned = refl;
      accounts = ground (
        arith,
        get_irqs_lem granted max_irqs 0 unloaded i,
        get_irqs_zero granted max_irqs 0 unloaded i refl refl,
      );
    } in
    let v = Chain-invariant (Inv i) (Step-Inv i) c begin in (v.owned, v.accounts)
