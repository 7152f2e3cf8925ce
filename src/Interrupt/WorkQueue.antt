-- ===== src/Interrupt/WorkQueue.antt =====
-- chapter_23_deferrable_functions/lab_workqueue_shared.c: each write queues the work and then
-- changes the number that the work prints; lab_workqueue_private.c and lab_workqueue_newapi.c have
-- the same handlers over a queue of their own.
use linux_foundation_embedde.Base.{
  ℕ, ◌+◌, ◌≡◌, Bool, true, false, not, ◌||◌, Option, none, some, ◌==◌, if◌then◌else◌, to_int, arith,
  refl, Chain, Chain-invariant,
}

-- `my_data.len`; `queued` is the bit of the work that schedule_work sets and the kernel clears before
-- it calls the work; whether a write has queued and not yet added; what the work printed last; and
-- whether there was a write.
pub record State : Type 0 where
  pub len : ℕ
  pub queued : Bool
  pub adding : Bool
  pub printed : Option ℕ
  pub written : Bool

-- The two accesses of mycdrv_write, one write at a time.
unfoldable pub mycdrv_write : State → State
mycdrv_write s =
    if s.adding
    then record s { len = to_int (s.len + 100); adding = false; written = true }
    else record s { queued = true; adding = true }

unfoldable pub w_fun : State → State
w_fun s = record s { printed = some s.len }

unfoldable pub my_init : State
my_init = record { len = 100; queued = false; adding = false; printed = none; written = false }

-- Any access of a write; and the kernel's call of the work that is queued.
pub data Step : State → State → Type 0 where
  write : (s : State) → Step s (mycdrv_write s)
  work : (s : State) → s.queued ≡ true → Step s (w_fun (record s { queued = false }))

-- The work printed the number that the last write left, or the one before it.
abbrev pub is_recent : (len : ℕ) → Option ℕ → Bool
is_recent len none = false
is_recent len (some v) = v == len || to_int (v + 100) == len

abbrev pub is_current : (len : ℕ) → Option ℕ → Bool
is_current len none = false
is_current len (some v) = v == len

pub record Inv (s : State) : Type 0 where
  pub current : s.queued || not s.adding || is_current s.len s.printed ≡ true
  pub recent : s.queued || s.adding || not s.written || is_recent s.len s.printed ≡ true

Step-Inv : (s t : State) → Step s t → Inv s → Inv t
unfolding mycdrv_write w_fun
Step-Inv s t (write _) v = ground arith
Step-Inv s t (work _ q) v = ground arith

-- The work is at most one write behind: whatever writes and runs of the work came before, once there
-- was a write, and when none is under way and nothing is queued, the number that was printed last is
-- the one that the last write left, or the one that it found.
work_is_recent :
    {s : State}
    → Chain Step my_init s
    → s.written ≡ true
    → s.adding ≡ false
    → s.queued ≡ false
    → is_recent s.len s.printed ≡ true
unfolding my_init
work_is_recent {s} c w a q =
    let v = Chain-invariant Inv Step-Inv c (record { current = refl; recent = refl }) in
    ground (arith, v.recent)
