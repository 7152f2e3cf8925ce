-- ===== src/Interrupt/AllLines/WorkQueue/Behind.antt =====
-- How the counts of lab_all_workqueue.c compare over all lines.
use linux_foundation_embedde.Base.{
  ℕ, zero, suc, ◌+◌, ◌^◌, ◌≤◌, ◌<◌, ◌≡◌, Bool, true, if◌then◌else◌, to_int, arith, refl, subst,
  Chain, Chain-invariant,
}
use native.Mathlib.Decide.{dec_lt}
use linux_foundation_embedde.Interrupt.AllLines.{
  update, max_irqs, get_irqs_lem, get_irqs_zero, unloaded,
}
use linux_foundation_embedde.Interrupt.AllLines.WorkQueue.{
  Pc, idle, called, counting, State, my_interrupt, advance, w_fun, loaded, total, Step, interrupt,
  work,
}

module _ (granted : ℕ → Bool) where
  total-below :
      (f : ℕ → ℕ) (irq v k : ℕ) → k ≤ irq → total granted (update f irq v) k ≡ total granted f k
  unfolding total
  total-below f irq v zero h = refl
  total-below f irq v (suc k) h = ground (arith, total-below f irq v k (omega arith))

  total-update :
      (f : ℕ → ℕ) (irq v k : ℕ)
      → irq < k
      → granted irq ≡ true
      → total granted (update f irq v) k + f irq ≡ total granted f k + v
  unfolding total
  total-update f irq v zero h g = absurd (omega arith)
  total-update f irq v (suc k) h g = elim (dec_lt irq k) [
    | yes p ↦ ground (arith, total-update f irq v k p g)
    | no p ↦ let e : k ≡ irq = omega arith in ground (arith, e, total-below f irq v k (omega arith))
  ]

  le-total : (f : ℕ → ℕ) (irq k : ℕ) → irq < k → granted irq ≡ true → f irq ≤ total granted f k
  unfolding total
  le-total f irq zero h g = absurd (omega arith)
  le-total f irq (suc k) h g = elim (dec_lt irq k) [
    | yes p ↦ omega (arith, le-total f irq k p g)
    | no p ↦ let e : k ≡ irq = omega arith in ground (arith, e)
  ]

-- The line that the work is to count, or has read, was granted.
abbrev pub IsMine : (granted : ℕ → Bool) → ℕ → Type 0
IsMine granted irq = (irq < max_irqs) × (granted irq ≡ true)

abbrev pub KnowsLine : (granted : ℕ → Bool) → Pc → Type 0
KnowsLine granted (counting irq) = IsMine granted irq
KnowsLine granted _ = Unit {0}

-- Whether the work waits, and whether it runs.
abbrev pub owed : State → ℕ
owed s = (if s.queued then 1 else 0) + busy s.pc
  where
    busy : Pc → ℕ
    busy idle = 0
    busy _ = 1

pub record Inv (granted : ℕ → Bool) (s : State) : Type 0 where
  pub line : 0 < owed s → IsMine granted s.irq
  pub knows : KnowsLine granted s.pc
  pub few : total granted s.arrays.interrupts max_irqs < 2 ^ 31
  pub behind :
      total granted s.arrays.bhs max_irqs + owed s ≤ total granted s.arrays.interrupts max_irqs

module _ (granted : ℕ → Bool) where
  interrupt-Inv :
      (irq : ℕ) (s : State) (p : Pc)
      → s.pc ≡ p
      → irq < max_irqs
      → granted irq ≡ true
      → total granted s.arrays.interrupts max_irqs + 1 < 2 ^ 31
      → Inv granted s
      → Inv granted (my_interrupt irq s)
  unfolding my_interrupt
  interrupt-Inv irq s p e inside mine few v =
      let n = s.arrays.interrupts irq in
      let small : n < 2 ^ 31 =
        omega (arith, le-total granted s.arrays.interrupts irq max_irqs inside mine) in
      let sum =
        total-update granted s.arrays.interrupts irq (to_int (n + 1)) max_irqs inside mine in
      record {
        line = λ _. (inside, mine);
        knows = v.knows;
        few = omega (arith, sum);
        behind = ground (arith, v.behind, sum);
      }

  advance-Inv : (p : Pc) (s : State) → s.pc ≡ p → Inv granted s → Inv granted (advance p s)
  unfolding advance
  advance-Inv idle s e v = ground arith
  advance-Inv called s e v = record {
    line = λ h. v.line (ground arith);
    knows = v.line (ground arith);
    few = v.few;
    behind = ground (arith, v.behind);
  }
  advance-Inv (counting irq) s e v =
      let (inside, mine) : IsMine granted irq = subst (KnowsLine granted) e v.knows in
      let n = s.arrays.bhs irq in
      let small : n < 2 ^ 31 =
        omega (arith, le-total granted s.arrays.bhs irq max_irqs inside mine, v.behind, v.few) in
      let sum = total-update granted s.arrays.bhs irq (to_int (n + 1)) max_irqs inside mine in
      record {
        line = λ h. v.line (ground arith);
        knows = tt;
        few = v.few;
        behind = ground (arith, v.behind, sum);
      }

  Step-Inv : (s t : State) → Step granted s t → Inv granted s → Inv granted t
  unfolding w_fun
  Step-Inv s t (interrupt irq _ inside mine few) v = interrupt-Inv irq s s.pc refl inside mine few v
  Step-Inv s t (work _) v = advance-Inv s.pc s refl v

  total-zero :
      (f : ℕ → ℕ) (k : ℕ) → ((i : ℕ) → granted i ≡ true → i < k → f i ≡ 0) → total granted f k ≡ 0
  unfolding total
  total-zero f zero h = refl
  total-zero f (suc k) h = ground (arith, h k, total-zero f k (λ i g l. h i g (omega arith)))

  pub none_came : total granted (loaded granted).arrays.interrupts max_irqs ≡ 0
  none_came =
      total-zero (loaded granted).arrays.interrupts max_irqs
        (λ i g l. ground (arith, get_irqs_lem granted max_irqs 0 unloaded i))

  none_ran : total granted (loaded granted).arrays.bhs max_irqs ≡ 0
  none_ran =
      total-zero (loaded granted).arrays.bhs max_irqs
        (λ i g l. (get_irqs_zero granted max_irqs 0 unloaded i refl refl).0)

  -- The work runs no more often than there were interrupts: in every reachable state, however the
  -- counts are spread over the lines, its count over all lines is at most that of the interrupts, and
  -- less by one for a work that waits and by one for a work that runs.
  pub all_work_behind :
      {s : State}
      → Chain (Step granted) (loaded granted) s
      → total granted s.arrays.bhs max_irqs + owed s ≤ total granted s.arrays.interrupts max_irqs
  all_work_behind c =
      (Chain-invariant (Inv granted) Step-Inv c (record {
        line = λ h. absurd (omega arith);
        knows = tt;
        few = omega (arith, none_came);
        behind = omega (arith, none_came, none_ran);
      })).behind
