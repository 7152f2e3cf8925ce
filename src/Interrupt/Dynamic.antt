-- ===== src/Interrupt/Dynamic.antt =====
-- chapter_23_deferrable_functions/lab_one_tasklet_dynamic.c: each interrupt allocates a tasklet of
-- its own, which frees itself when it has run.
use linux_foundation_embedde.Base.{
  ℕ, suc, ◌+◌, ◌-◌, ◌≡◌, Bool, true, false, Option, none, some, List, [], ◌∷◌, ◌++◌, length, ap,
  arith, refl, to_int, Chain, Chain-invariant,
}

-- `scheduled` holds the `jiffies` of the tasklets that wait, in their order, and `allocated` is the
-- number of `struct my_dat` blocks that are not freed.
pub record State : Type 0 where
  pub counter_th : ℕ
  pub counter_bh : ℕ
  pub scheduled : List ℕ
  pub allocated : ℕ

-- The answer of kmalloc is not looked at: with a NULL pointer the handler writes through it, which
-- is `none`.
unfoldable pub my_interrupt : (now : ℕ) (answer : Bool) → State → Option State
my_interrupt now false s = none
my_interrupt now true s = some (record {
  counter_th = to_int (s.counter_th + 1);
  counter_bh = s.counter_bh;
  scheduled = s.scheduled ++ (now ∷ []);
  allocated = s.allocated + 1;
})

-- The tasklet at the head runs, counts and frees its block.
run_head : List ℕ → State → State
run_head [] s = s
run_head (j ∷ rest) s = record s {
  counter_bh = to_int (s.counter_bh + 1);
  scheduled = rest;
  allocated = s.allocated - 1;
}

unfoldable pub t_fun : State → State
unfolding run_head
t_fun s = run_head s.scheduled s

abbrev pub initial : State
initial = record { counter_th = 0; counter_bh = 0; scheduled = []; allocated = 0 }

pub data Step : State → State → Type 0 where
  interrupt : (now : ℕ) (s : State) {t : State} → my_interrupt now true s ≡ some t → Step s t
  softirq : (s : State) → Step s (t_fun s)

pub record Inv (s : State) : Type 0 where
  pub owned : s.allocated ≡ length s.scheduled
  pub accounts : to_int (s.counter_bh + length s.scheduled) ≡ s.counter_th

length-snoc : (xs : List ℕ) (x : ℕ) → length (xs ++ (x ∷ [])) ≡ suc (length xs)
length-snoc [] x = refl
length-snoc (y ∷ ys) x = ap suc (length-snoc ys x)

run_head-Inv : (l : List ℕ) (s : State) → s.scheduled ≡ l → Inv s → Inv (run_head l s)
unfolding run_head
run_head-Inv [] s e v = v
run_head-Inv (j ∷ rest) s e v = ground (arith, ap length e)

Step-Inv : (s t : State) → Step s t → Inv s → Inv t
unfolding my_interrupt t_fun
Step-Inv s t (interrupt now _ e) v = ground (arith, length-snoc s.scheduled now)
Step-Inv s t (softirq _) v = run_head-Inv s.scheduled s refl v

-- Every interrupt has a tasklet of its own: in every reachable state there are as many blocks
-- allocated as tasklets wait, and these and the tasklets that ran make up the interrupts (modulo
-- 2 ^ 32). So when none waits, nothing is allocated and every interrupt was counted.
dynamic_accounts :
    {s : State}
    → Chain Step initial s
    → (s.allocated ≡ length s.scheduled)
      × (to_int (s.counter_bh + length s.scheduled) ≡ s.counter_th)
dynamic_accounts c =
    let v = Chain-invariant Inv Step-Inv c (record { owned = refl; accounts = refl }) in
    (v.owned, v.accounts)
