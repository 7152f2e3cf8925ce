-- ===== src/Wait/Semaphore.antt =====
-- chapter_22_sleeping_and_wait_queues/todo/lab_semaphore.c: the module takes the semaphore when it is
-- loaded, each read takes it and each write gives it.
use linux_foundation_embedde.Base.{
  ℕ, zero, suc, ◌+◌, ◌^◌, ◌<◌, ◌≡◌, Bool, true, false, Option, none, some, if◌then◌else◌, arith,
  refl, Chain, Chain-invariant,
}

-- What is documented of the kernel's semaphores, by their count: up () adds one, and down_interruptible ()
-- takes one off or sleeps, which is `none`.
pub record Semaphores : Type 0 where
  pub up : ℕ → ℕ
  pub gives : (n : ℕ) → n + 1 < 2 ^ 32 → up n ≡ n + 1
  pub down_interruptible : ℕ → Option ℕ
  pub sleeps : down_interruptible 0 ≡ none
  pub takes : (n : ℕ) → n + 1 < 2 ^ 32 → down_interruptible (n + 1) ≡ some n

-- The count of the semaphore, and how many reads came through it and writes returned.
pub record State : Type 0 where
  pub my_sem : ℕ
  pub reads : ℕ
  pub writes : ℕ

-- A call that comes through the semaphore, or is still asleep.
take : Option ℕ → State → State
take none s = s
take (some n) s = record s { my_sem = n; reads = s.reads + 1 }

module _ (k : Semaphores) where
  open k use {up, gives, down_interruptible, sleeps, takes}

  -- `signalled` says that a signal ended the sleep: the function returns -ERESTARTSYS then, which is `false`.
  -- `none` where it is still asleep.
  unfoldable pub my_init : (signalled : Bool) → (my_sem : ℕ) → Option (Bool × State)
  my_init signalled my_sem =
      if signalled
      then some (false, record { my_sem = my_sem; reads = 0; writes = 0 })
      else loaded (down_interruptible my_sem)
    where
      loaded : Option ℕ → Option (Bool × State)
      loaded none = none
      loaded (some n) = some (true, record { my_sem = n; reads = 0; writes = 0 })

  unfoldable pub mycdrv_read : (signalled : Bool) → State → State
  unfolding take
  mycdrv_read signalled s = if signalled then s else take (down_interruptible s.my_sem) s

  unfoldable pub mycdrv_write : State → State
  mycdrv_write s = record s { my_sem = up s.my_sem; writes = s.writes + 1 }

  pub data Step : State → State → Type 0 where
    read : (signalled : Bool) (s : State) → Step s (mycdrv_read signalled s)
    write : (s : State) → Step s (mycdrv_write s)

  abbrev Balances : State → Type 0
  Balances s = s.writes < 2 ^ 32 → s.reads + s.my_sem ≡ s.writes

  read-Balances :
      (n : ℕ) (s : State) → s.my_sem ≡ n → Balances s → Balances (take (down_interruptible n) s)
  unfolding take
  read-Balances zero s e b lt = ground (arith, sleeps, b)
  read-Balances (suc n) s e b lt = ground (arith, takes n, b)

  Step-Balances : (s t : State) → Step s t → Balances s → Balances t
  unfolding mycdrv_read mycdrv_write
  Step-Balances s t (read true _) b = b
  Step-Balances s t (read false _) b = read-Balances s.my_sem s refl b
  Step-Balances s t (write _) b = λ lt. ground (arith, gives s.my_sem, b)

  -- Loading takes the semaphore, which DEFINE_SEMAPHORE starts at 1. From then on, and with fewer than 2 ^ 32
  -- writes, each write lets one read through and no more: in every reachable state the reads that came through
  -- and the count make up the writes.
  semaphore_accounts :
      (s : State) × (my_init false 1 ≡ some (true, s))
      × ((t : State) → Chain Step s t → t.writes < 2 ^ 32 → t.reads + t.my_sem ≡ t.writes)
  unfolding my_init
  semaphore_accounts = (
    record { my_sem = 0; reads = 0; writes = 0 },
    rw (takes 0 (omega arith)) refl,
    λ t c lt. Chain-invariant Balances Step-Balances c (λ _. refl) lt,
  )
