-- ===== src/Interrupt/AllLines/Freeing.antt =====
-- How get_irqs and freeup_irqs of chapter_23_deferrable_functions/lab_all_interrupt.h fit together.
use linux_foundation_embedde.Base.{
  ℕ, zero, suc, ◌+◌, ◌≤◌, ◌<◌, ◌≡◌, ◌^◌, ◌&&◌, not, ltb, ◌∙◌, Bool, false, arith, refl, subst,
  Chain, Chain-invariant,
}
use native.Mathlib.Decide.{dec_lt}
use linux_foundation_embedde.Interrupt.AllLines.{
  State, Step, max_irqs, get_irqs, get_irqs_lem, registered, free_one, freeup_irqs, my_interrupt,
  t_fun, unloaded, minus_one, interrupt, tasklet,
}

-- From a line on, the lines that were granted are held, and the others have the flag -1; the lines before it are freed
-- but for those whose count is negative; and nothing was freed wrongly.
pub record Inv (granted : ℕ → Bool) (irq : ℕ) (s : State) : Type 0 where
  pub kept : (i : ℕ) → irq ≤ i → i < max_irqs → s.held i ≡ granted i
  pub flagged : (i : ℕ) → i < max_irqs → granted i ≡ false → s.interrupts i ≡ minus_one
  pub freed : (i : ℕ) → i < irq → s.held i ≡ granted i && not (registered (s.interrupts i))
  pub beyond : (i : ℕ) → max_irqs ≤ i → s.held i ≡ false
  pub good : s.bad_free ≡ false

free_one-Inv :
    (granted : ℕ → Bool) (irq : ℕ) (s : State)
    → irq < max_irqs
    → Inv granted irq s
    → Inv granted (suc irq) (free_one irq s)
unfolding free_one
free_one-Inv granted irq s lt v = record {
  kept = λ i h k. ground (arith, v.kept i (omega arith) k);
  flagged = λ i k e. ground (arith, v.flagged i k e);
  freed = λ i h. elim (dec_lt i irq) [
    | yes p ↦ ground (arith, v.freed i p)
    | no p ↦
        let e : i ≡ irq = omega arith in
        rw e (ground (arith, v.kept irq (omega arith) lt, v.flagged irq lt))
  ];
  beyond = λ i h. ground (arith, v.beyond i h);
  good = ground (arith, v.good, v.kept irq (omega arith) lt, v.flagged irq lt);
}

freeup_irqs-Inv :
    (granted : ℕ → Bool) (k irq : ℕ) (s : State)
    → irq + k ≡ max_irqs
    → Inv granted irq s
    → Inv granted max_irqs (freeup_irqs k irq s)
      × ((i : ℕ) → (freeup_irqs k irq s).interrupts i ≡ s.interrupts i)
unfolding freeup_irqs free_one
freeup_irqs-Inv granted zero irq s e v = (subst (λ n. Inv granted n s) (omega arith) v, λ i. refl)
freeup_irqs-Inv granted (suc k) irq s e v =
    let (w, same) =
      freeup_irqs-Inv granted k (suc irq) (free_one irq s) (omega arith)
        (free_one-Inv granted irq s (omega arith) v) in
    (w, λ i. same i ∙ ground arith)

pub Step-Inv : (granted : ℕ → Bool) (s t : State) → Step s t → Inv granted 0 s → Inv granted 0 t
unfolding my_interrupt t_fun
Step-Inv granted s t (interrupt irq _ h) v = record {
  kept = v.kept;
  flagged = λ i k e. ground (arith, v.flagged i k e, v.kept i (omega arith) k);
  freed = λ i a. absurd (omega arith);
  beyond = v.beyond;
  good = v.good;
}
Step-Inv granted s t (tasklet irq _) v = record {
  kept = v.kept;
  flagged = v.flagged;
  freed = λ i a. absurd (omega arith);
  beyond = v.beyond;
  good = v.good;
}

pub get_irqs-Inv : (granted : ℕ → Bool) → Inv granted 0 (get_irqs granted max_irqs 0 unloaded)
get_irqs-Inv granted = record {
  kept = λ i a b. ground (arith, get_irqs_lem granted max_irqs 0 unloaded i);
  flagged = λ i b e. ground (arith, get_irqs_lem granted max_irqs 0 unloaded i);
  freed = λ i a. absurd (omega arith);
  beyond = λ i a. ground (arith, get_irqs_lem granted max_irqs 0 unloaded i);
  good = ground (arith, get_irqs_lem granted max_irqs 0 unloaded 0);
}

-- Whatever interrupts and tasklets came since loading, unloading frees no line that loading was not granted, and of
-- those that it was granted every one whose count is not negative as an `int`. A line whose count has passed 2 ^ 31 - 1
-- stays held: its flag reads as that of a line that was not granted.
pub freeup_frees_granted :
    (granted : ℕ → Bool) {s : State}
    → Chain Step (get_irqs granted max_irqs 0 unloaded) s
    → (i : ℕ) → i < max_irqs
    → let t = freeup_irqs max_irqs 0 s in
      (t.held i ≡ granted i && not (ltb (s.interrupts i) (2 ^ 31))) × (t.bad_free ≡ false)
freeup_frees_granted granted {s} c i lt =
    let (v, same) =
      freeup_irqs-Inv granted max_irqs 0 s refl
        (Chain-invariant (Inv granted 0) (Step-Inv granted) c (get_irqs-Inv granted)) in
    (v.freed i lt ∙ rw (same i) refl, v.good)
