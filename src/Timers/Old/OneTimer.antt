-- ===== src/Timers/Old/OneTimer.antt =====
-- labs_OLD/lab_timer.c of chapter_18_kernel_timers/todo: each write starts the one timer of the driver.
use mathlib.Core.Option.{none-ne-some, some-injective}
use mathlib.Core.Bool.{true≢false}
use linux_foundation_embedde.Base.{
  ℕ, zero, suc, ◌+◌, ◌*◌, ◌≡◌, Bool, true, false, Option, none, some, List, [], ◌∷◌, if◌then◌else◌,
  to_int, arith, refl, ◌∙◌, ap, sym, subst,
}

-- The static `len` and `timer_initd`; the data of the timer while it waits; and what it printed, the last value first.
pub record State : Type 0 where
  pub len : ℕ
  pub timer_initd : Bool
  pub waiting : Option ℕ
  pub printed : List ℕ

start_timer : Option ℕ → State → Option State
start_timer (some v) s = none
start_timer none s =
    some (record s { waiting = some s.len; timer_initd = true; len = to_int (s.len + 100) })

-- `none` where the timer still waits: the kernel's list of timers breaks when a timer is set up or added again.
unfoldable pub mycdrv_write : State → Option State
unfolding start_timer
mycdrv_write s = start_timer s.waiting s

run_timer : Option ℕ → State → State
run_timer none s = s
run_timer (some v) s = record s { waiting = none; printed = v ∷ s.printed }

-- The kernel runs the timer if it waits.
unfoldable pub my_timer_function : State → State
unfolding run_timer
my_timer_function s = run_timer s.waiting s

-- del_timer_sync takes the timer off.
unfoldable pub my_exit : State → State
my_exit s = if s.timer_initd then record s { waiting = none } else s

abbrev pub loaded : State
loaded = record { len = 100; timer_initd = false; waiting = none; printed = [] }

-- The runs of the driver: a state, and how many writes have returned since loading.
pub data Run : ℕ → State → Type 0 where
  load : Run 0 loaded
  write : (n : ℕ) (s t : State) → Run n s → mycdrv_write s ≡ some t → Run (suc n) t
  expire : (n : ℕ) (s : State) → Run n s → Run n (my_timer_function s)

abbrev pub values : Option ℕ → List ℕ → List ℕ
values none printed = printed
values (some v) printed = v ∷ printed

-- The data of `n` writes, the last one first.
abbrev pub hundreds : ℕ → List ℕ
hundreds zero = []
hundreds (suc n) = to_int (100 * (n + 1)) ∷ hundreds n

record Inv (n : ℕ) (s : State) : Type 0 where
  in_order : values s.waiting s.printed ≡ hundreds n
  next : s.len ≡ to_int (100 * (n + 1))
  known : s.timer_initd ≡ false → s.waiting ≡ none

start-Inv :
    (w : Option ℕ) (n : ℕ) (s t : State)
    → s.waiting ≡ w
    → start_timer w s ≡ some t
    → Inv n s
    → Inv (suc n) t
unfolding start_timer
start-Inv (some x) n s t w e v = absurd (none-ne-some t e)
start-Inv none n s t w e v = subst (Inv (suc n)) (some-injective _ _ e) (record {
  in_order =
      let order : values none s.printed ≡ hundreds n =
        ap (λ o. values o s.printed) (sym w) ∙ v.in_order in
      λ i. v.next i ∷ order i;
  next = omega (arith, v.next);
  known = λ bad. absurd (true≢false bad);
})

run-Inv : (w : Option ℕ) (n : ℕ) (s : State) → s.waiting ≡ w → Inv n s → Inv n (run_timer w s)
unfolding run_timer
run-Inv none n s w v = v
run-Inv (some x) n s w v = record {
  in_order = ap (λ o. values o s.printed) (sym w) ∙ v.in_order;
  next = v.next;
  known = λ f. refl;
}

Run-Inv : {n : ℕ} {s : State} → Run n s → Inv n s
unfolding my_timer_function mycdrv_write
Run-Inv load = record { in_order = refl; next = refl; known = λ f. refl }
Run-Inv (write n s t c e) = start-Inv s.waiting n s t refl e (Run-Inv c)
Run-Inv (expire n s c) = run-Inv s.waiting n s refl (Run-Inv c)

-- In every state that is reached by `n` writes, none of which finds the timer waiting, and by expirations, in whatever
-- order, what the timer printed, behind what it waits with, is the data of these `n` writes, each once and in their
-- order: 100, 200 and so on (as an `int`); and the exit function leaves no timer behind.
pub one_timer_in_order :
    {n : ℕ} {s : State}
    → Run n s
    → (values s.waiting s.printed ≡ hundreds n) × ((my_exit s).waiting ≡ none)
unfolding my_exit
one_timer_in_order {n} {s} c = let v = Run-Inv c in (v.in_order, ground (arith, v.known))
