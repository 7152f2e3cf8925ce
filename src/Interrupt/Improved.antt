-- ===== src/Interrupt/Improved.antt =====
-- chapter_23_deferrable_functions/lab_one_tasklet_improved.c: the tasklet handles every event that
-- came since it last ran.
use linux_foundation_embedde.Base.{
  ℕ, zero, suc, ◌+◌, ◌*◌, ◌-◌, ◌^◌, ◌<◌, ◌≡◌, ◌∙◌, ◌⊎◌, Bool, true, false, arith, refl, to_int,
  ◌==◌, ltb, ◌||◌, if◌then◌else◌, Chain, Chain-invariant,
}

-- Where the tasklet stands: not running; at the start; at the head of the loop; before
-- atomic_dec_and_test; before the increment of `catchup`.
pub data Pc : Type 0 where
  idle entered loop counted missed : Pc

pub record State : Type 0 where
  pub counter_th : ℕ
  pub counter_bh : ℕ
  pub nevents : ℕ
  pub catchup : ℕ
  pub jiffies : ℕ
  pub scheduled : Bool
  pub pc : Pc

unfoldable pub my_interrupt : (now : ℕ) → State → State
my_interrupt now s = record s {
  counter_th = to_int (s.counter_th + 1);
  nevents = to_int (s.nevents + 1);
  jiffies = now;
  scheduled = true;
}

-- my_init, with the counters that my_generic_init sets to 0.
abbrev pub my_init : State
my_init = record {
  counter_th = 0;
  counter_bh = 0;
  nevents = 0;
  catchup = 0;
  jiffies = 0;
  scheduled = false;
  pc = idle;
}

-- `atomic_read (&nevents) <= 0`, of an `int`.
abbrev pub none_left : ℕ → Bool
none_left n = n == 0 || ltb (2 ^ 31 - 1) n

-- One access of t_fun. While it is idle the kernel starts it if it is scheduled.
advance : Pc → State → State
advance idle s = if s.scheduled then record s { scheduled = false; pc = entered } else s
advance entered s = if none_left s.nevents then record s { pc = idle } else record s { pc = loop }
advance loop s = record s { counter_bh = to_int (s.counter_bh + 1); pc = counted }
advance counted s =
    let left = to_int (s.nevents + 2 ^ 32 - 1) in
    if left == 0
    then record s { nevents = left; pc = idle }
    else record s { nevents = left; pc = missed }
advance missed s = record s { catchup = to_int (s.catchup + 1); pc = loop }

unfoldable pub t_fun : State → State
unfolding advance
t_fun s = advance s.pc s

-- An interrupt, while fewer than 2 ^ 31 - 1 events are left over; or one access of the tasklet.
pub data Step : State → State → Type 0 where
  interrupt : (now : ℕ) (s : State) → s.nevents + 1 < 2 ^ 31 → Step s (my_interrupt now s)
  tasklet : (s : State) → Step s (t_fun s)

-- The event that the tasklet has counted and not yet taken off.
abbrev pub in_hand : Pc → ℕ
in_hand counted = 1
in_hand _ = 0

-- In the loop there is an event to take.
abbrev pub IsBusy : Pc → ℕ → Bool → Type 0
IsBusy idle n scheduled = (n ≡ 0) ⊎ (scheduled ≡ true)
IsBusy entered n scheduled = Unit
IsBusy _ n scheduled = 0 < n

pub record Inv (s : State) : Type 0 where
  pub few : s.nevents < 2 ^ 31
  pub th_int : s.counter_th < 2 ^ 32
  pub bh_int : s.counter_bh < 2 ^ 32
  pub counted_all : to_int (s.counter_bh + s.nevents) ≡ to_int (s.counter_th + in_hand s.pc)
  pub busy : IsBusy s.pc s.nevents s.scheduled

interrupt-Inv : (now : ℕ) (s : State) → s.nevents + 1 < 2 ^ 31 → Inv s → Inv (my_interrupt now s)
unfolding my_interrupt
interrupt-Inv now s h v = ground arith

t_fun-Inv : (s : State) → Inv s → Inv (t_fun s)
unfolding t_fun
t_fun-Inv s v = ground arith

Step-Inv : (s t : State) → Step s t → Inv s → Inv t
Step-Inv s t (interrupt now _ h) v = interrupt-Inv now s h v
Step-Inv s t (tasklet _) v = t_fun-Inv s v

my_init-Inv : Inv my_init
my_init-Inv = ground arith

-- No event is lost: in every reachable state in which the tasklet neither runs nor is scheduled, no
-- event is left over and it has counted as many events as there were interrupts (modulo 2 ^ 32, as
-- the counters are).
pub improved_loses_nothing :
    {s : State}
    → Chain Step my_init s
    → s.pc ≡ idle
    → s.scheduled ≡ false
    → (s.nevents ≡ 0) × (s.counter_bh ≡ s.counter_th)
improved_loses_nothing {s} c stopped quiet =
    let v = Chain-invariant Inv Step-Inv c my_init-Inv in
    let busy : IsBusy idle s.nevents false = rw (stopped, quiet) at v.busy in
    let count : to_int (s.counter_bh + s.nevents) ≡ to_int (s.counter_th + in_hand idle) =
      rw stopped at v.counted_all in
    ground (arith, v.th_int, v.bh_int)

-- The tasklet without interruption.
unfoldable pub run : ℕ → State → State
run zero s = s
run (suc n) s = run n (t_fun s)

-- One turn of the loop, with more events left.
turn : State → State
turn s = record s {
  counter_bh = to_int (s.counter_bh + 1);
  nevents = s.nevents - 1;
  catchup = to_int (s.catchup + 1);
}

t_fun-turn :
    (n : ℕ) (s : State)
    → s.pc ≡ loop
    → s.nevents ≡ suc (suc n)
    → n + 2 < 2 ^ 31
    → t_fun (t_fun (t_fun s)) ≡ turn s
unfolding t_fun turn
t_fun-turn n s p e h = ground arith

-- A run of the loop with `n + 1` events left and no interruption.
drained : ℕ → State → State
drained n s = record s {
  counter_bh = to_int (s.counter_bh + suc n);
  nevents = 0;
  catchup = to_int (s.catchup + n);
  pc = idle;
}

drained-turn : (n : ℕ) (s : State) → drained n (turn s) ≡ drained (suc n) s
unfolding drained turn
drained-turn n s = ground arith

loop_drains :
    (n : ℕ) (s : State)
    → s.pc ≡ loop
    → s.nevents ≡ suc n
    → s.catchup < 2 ^ 32
    → n + 1 < 2 ^ 31
    → run (2 + 3 * n) s ≡ drained n s
unfolding run drained
loop_drains zero s p e c h = unfold t_fun in ground arith
loop_drains (suc n) s p e c h =
    let k : 2 + 3 * suc n ≡ suc (suc (suc (2 + 3 * n))) = omega arith in
    rw (k, run, run, run, t_fun-turn n s p e (omega arith))
      (loop_drains n (turn s) (unfold turn in p) (unfold turn in ground arith)
          (unfold turn in omega arith) (omega arith)
        ∙ drained-turn n s)

-- The loop of the tasklet ends. Called with `n + 1` events left over and not interrupted, the
-- tasklet takes them all: it returns with none left, has counted `n + 1` events, and `n` of them as
-- caught up.
pub t_fun_drains :
    (n : ℕ) (s : State)
    → s.pc ≡ entered
    → s.nevents ≡ suc n
    → s.catchup < 2 ^ 32
    → n + 1 < 2 ^ 31
    → run (3 + 3 * n) s ≡ record s {
      counter_bh = to_int (s.counter_bh + suc n);
      nevents = 0;
      catchup = to_int (s.catchup + n);
      pc = idle;
    }
unfolding run
t_fun_drains n s p e c h =
    let k : 3 + 3 * n ≡ suc (2 + 3 * n) = omega arith in
    let first : t_fun s ≡ record s { pc = loop } = unfold t_fun in ground arith in
    rw (k, run, first)
      (loop_drains n (record s { pc = loop }) refl e c h ∙ (unfold drained in refl))
