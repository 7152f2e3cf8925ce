-- ===== src/Timers/Resolution.antt =====
-- chapter_18_kernel_timers/resolution_timer_kernel/resolution_timer_driver.c: each write starts a
-- timer; the exit function knows the last one.
use linux_foundation_embedde.Base.{
  ℕ, zero, suc, ◌+◌, ◌-◌, ◌≡◌, Bool, true, false, List, [], ◌∷◌, length, if◌then◌else◌, to_int,
  arith, refl,
}

-- `timer_initd`, the static `len`, the kt_data blocks that are allocated, the latest first, which is
-- the one that `data` points to, and whether the device is registered.
pub record State : Type 0 where
  pub timer_initd : Bool
  pub len : ℕ
  pub blocks : List ℕ
  pub registered : Bool

-- A block is named by the value that it holds. kt_fun prints and frees nothing.
unfoldable pub mycdrv_write : State → State
mycdrv_write s = record s {
  timer_initd = true;
  len = to_int (s.len + 100);
  blocks = s.len ∷ s.blocks;
}

unfoldable pub kt_fun : State → State
kt_fun s = s

-- kfree (data)
tail : List ℕ → List ℕ
tail [] = []
tail (b ∷ blocks) = blocks

-- my_generic_exit deregisters the device.
unfoldable pub my_exit : State → State
unfolding tail
my_exit s =
    if s.timer_initd then record s { blocks = tail s.blocks } else record s { registered = false }

abbrev pub my_init : State
my_init = record { timer_initd = false; len = 100; blocks = []; registered = true }

unfoldable pub writes : ℕ → State → State
writes zero s = s
writes (suc n) s = writes n (mycdrv_write s)

writes_counts :
    (n : ℕ) (s : State)
    → (length (writes n s).blocks ≡ n + length s.blocks) × ((writes n s).registered ≡ s.registered)
unfolding writes mycdrv_write
writes_counts zero s = (omega arith, refl)
writes_counts (suc n) s = let (b, r) = writes_counts n (mycdrv_write s) in (omega (arith, b), r)

writes-timer_initd : (n : ℕ) (s : State) → s.timer_initd ≡ true → (writes n s).timer_initd ≡ true
unfolding writes mycdrv_write
writes-timer_initd zero s h = h
writes-timer_initd (suc n) s h = writes-timer_initd n (mycdrv_write s) refl

length-tail : (l : List ℕ) → length (tail l) ≡ length l - 1
unfolding tail
length-tail [] = omega arith
length-tail (b ∷ l) = omega arith

my_exit-initd : (s : State) → s.timer_initd ≡ true → my_exit s ≡ record s { blocks = tail s.blocks }
unfolding my_exit
my_exit-initd s h = ground arith

-- Unloading without a write deregisters the device. Unloading after `n + 1` writes does not, for
-- every `n`: it frees the data of the last timer only, and leaves the device registered and the
-- data of the `n` earlier timers allocated.
exit_after_writes :
    (n : ℕ)
    → ((my_exit my_init).registered ≡ false)
      × ((my_exit (writes (suc n) my_init)).registered ≡ true)
      × (length (my_exit (writes (suc n) my_init)).blocks ≡ n)
exit_after_writes n =
    let (b, r) = writes_counts (suc n) my_init in
    let i = writes-timer_initd n (mycdrv_write my_init) (unfold mycdrv_write in refl) in
    let e : my_exit (writes (suc n) my_init) ≡ _ =
      my_exit-initd (writes (suc n) my_init) (unfold writes in i) in
    (
      unfold my_exit in refl,
      rw e r,
      rw e (omega (arith, b, length-tail (writes (suc n) my_init).blocks)),
    )
