-- ===== src/Wait/Completion.antt =====
-- chapter_22_sleeping_and_wait_queues/todo/lab_complete.c: each read waits for a completion, and each
-- write completes one.
use linux_foundation_embedde.Base.{
  ℕ, zero, suc, ◌+◌, ◌-◌, ◌^◌, ◌<◌, ◌≡◌, Option, none, some, arith, refl, Chain, Chain-invariant,
}

-- What is documented of the kernel's completions, by the number that `done` has: complete () adds one, and
-- wait_for_completion () takes one off or sleeps, which is `none`; no signal ends the wait. The last of the
-- 2 ^ 32 numbers stands for a completion that stays done.
pub record Completions : Type 0 where
  pub complete : ℕ → ℕ
  pub completes : (n : ℕ) → n + 1 < 2 ^ 32 - 1 → complete n ≡ n + 1
  pub wait_for_completion : ℕ → Option ℕ
  pub sleeps : wait_for_completion 0 ≡ none
  pub takes : (n : ℕ) → n + 1 < 2 ^ 32 - 1 → wait_for_completion (n + 1) ≡ some n

-- `my_wait`, the reads that came through, and the writes that returned.
pub record State : Type 0 where
  pub my_wait : ℕ
  pub reads : ℕ
  pub writes : ℕ

-- A read that comes through, or is still asleep.
take : Option ℕ → State → State
take none s = s
take (some n) s = record s { my_wait = n; reads = s.reads + 1 }

-- DECLARE_COMPLETION starts with nothing done.
abbrev pub initial : State
initial = record { my_wait = 0; reads = 0; writes = 0 }

module _ (k : Completions) where
  open k use {complete, completes, wait_for_completion, sleeps, takes}

  unfoldable pub mycdrv_read : State → State
  unfolding take
  mycdrv_read s = take (wait_for_completion s.my_wait) s

  unfoldable pub mycdrv_write : State → State
  mycdrv_write s = record s { my_wait = complete s.my_wait; writes = s.writes + 1 }

  pub data Step : State → State → Type 0 where
    read : (s : State) → Step s (mycdrv_read s)
    write : (s : State) → Step s (mycdrv_write s)

  abbrev Balances : State → Type 0
  Balances s = s.writes < 2 ^ 32 - 1 → s.reads + s.my_wait ≡ s.writes

  read-Balances :
      (n : ℕ) (s : State) → s.my_wait ≡ n → Balances s → Balances (take (wait_for_completion n) s)
  unfolding take
  read-Balances zero s e b lt = ground (arith, sleeps, b)
  read-Balances (suc n) s e b lt = ground (arith, takes n, b)

  Step-Balances : (s t : State) → Step s t → Balances s → Balances t
  unfolding mycdrv_read mycdrv_write
  Step-Balances s t (read _) b = read-Balances s.my_wait s refl b
  Step-Balances s t (write _) b = λ lt. ground (arith, completes s.my_wait, b)

  -- With fewer than 2 ^ 32 - 1 writes, each write lets one read through and no more: in every reachable
  -- state the reads that came through and the number of `my_wait` make up the writes.
  completion_accounts :
      {s : State} → Chain Step initial s → s.writes < 2 ^ 32 - 1 → s.reads + s.my_wait ≡ s.writes
  completion_accounts c lt = Chain-invariant Balances Step-Balances c (λ _. refl) lt
