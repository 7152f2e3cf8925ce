-- ===== src/Timers/Multi.antt =====
-- chapter_18_kernel_timers/todo/lab_multitimer.c: each write starts a timer with data of its own,
-- and the exit function waits until all have run.
use linux_foundation_embedde.Base.{
  ℕ, ◌+◌, ◌-◌, ◌^◌, ◌<◌, ◌≡◌, Bool, true, false, Option, none, some, List, [], ◌∷◌, ◌++◌, length,
  ap, ◌==◌, if◌then◌else◌, to_int, arith, refl, Chain, Chain-invariant,
}

-- `ntimers` and the static `len`; the values of the timers that wait; how many kt_data blocks are
-- allocated; whether a write has counted its timer and not yet added it.
pub record State : Type 0 where
  pub ntimers : ℕ
  pub len : ℕ
  pub waiting : List ℕ
  pub allocated : ℕ
  pub adding : Bool

-- The two accesses of mycdrv_write, one write at a time: the count, and the timer. The answer of kmalloc is not looked
-- at: where it fails the driver writes through a NULL pointer, which is `none`.
unfoldable pub mycdrv_write : (block_allocated : Bool) → State → Option State
mycdrv_write block_allocated s =
    if s.adding
    then (if block_allocated
        then some (record s {
          waiting = s.len ∷ s.waiting;
          allocated = s.allocated + 1;
          len = to_int (s.len + 100);
          adding = false;
        })
        else none)
    else some (record s { ntimers = to_int (s.ntimers + 1); adding = true })

-- The kernel runs a timer that waits: it frees its data and takes itself off the count.
run_timer : List ℕ → List ℕ → State → State
run_timer before [] s = s
run_timer before (v ∷ after) s = record s {
  waiting = before ++ after;
  allocated = s.allocated - 1;
  ntimers = to_int (s.ntimers + 2 ^ 32 - 1);
}

unfoldable pub kt_fun : List ℕ → List ℕ → State → State
unfolding run_timer
kt_fun before after s = run_timer before after s

-- The loop of my_exit ends when `ntimers` is 0.
unfoldable pub exit_ready : State → Bool
exit_ready s = s.ntimers == 0

abbrev pub my_init : State
my_init = record { ntimers = 0; len = 100; waiting = []; allocated = 0; adding = false }

-- Any waiting timer may expire first; a write that is refused its block ends the run. Fewer than 2 ^ 32 - 1 timers are counted at a time.
pub data Step : State → State → Type 0 where
  write :
      (block_allocated : Bool) (s : State) {t : State}
      → s.ntimers + 1 < 2 ^ 32
      → mycdrv_write block_allocated s ≡ some t
      → Step s t
  expire :
      (before after : List ℕ) (s : State)
      → s.waiting ≡ before ++ after
      → Step s (kt_fun before after s)

abbrev pub pending : Bool → ℕ
pending true = 1
pending false = 0

pub record Inv (s : State) : Type 0 where
  pub counted : s.ntimers ≡ length s.waiting + pending s.adding
  pub owned : s.allocated ≡ length s.waiting
  pub fits : s.ntimers < 2 ^ 32

length-append : (xs ys : List ℕ) → length (xs ++ ys) ≡ length xs + length ys
length-append [] ys = omega arith
length-append (x ∷ xs) ys = omega (arith, length-append xs ys)

kt_fun-Inv :
    (before after : List ℕ) (s : State)
    → s.waiting ≡ before ++ after
    → Inv s
    → Inv (kt_fun before after s)
unfolding kt_fun
kt_fun-Inv before [] s e v = v
kt_fun-Inv before (x ∷ after) s e v =
    ground (arith, ap length e, length-append before (x ∷ after), length-append before after)

write-Inv :
    (block_allocated : Bool) (s t : State)
    → s.ntimers + 1 < 2 ^ 32
    → mycdrv_write block_allocated s ≡ some t
    → Inv s
    → Inv t
unfolding mycdrv_write
write-Inv block_allocated s t h e v = ground (arith, v.counted, v.owned, v.fits)

Step-Inv : (s t : State) → Step s t → Inv s → Inv t
Step-Inv s t (write block_allocated _ h e) v = write-Inv block_allocated s t h e v
Step-Inv s t (expire before after _ e) v = kt_fun-Inv before after s e v

-- When the loop of the exit function ends, no timer waits, no write is about to add one, and all
-- the data is freed, whatever writes and expirations came before and in whatever order.
pub exit_finds_no_timer :
    {s : State}
    → Chain Step my_init s
    → exit_ready s ≡ true
    → (length s.waiting ≡ 0) × (s.allocated ≡ 0) × (s.adding ≡ false)
unfolding exit_ready
exit_finds_no_timer {s} c h =
    let v =
      Chain-invariant Inv Step-Inv c
        (record { counted = refl; owned = refl; fits = omega arith }) in
    ground (arith, v.counted, v.owned)
