-- ===== src/Clock/Search.antt =====
-- What the search of lab_tsc.c through the text of /proc/cpuinfo finds.
use native.Mathlib.Decide.{ℕ_discrete}
use linux_foundation_embedde.Base.{
  ℕ, zero, suc, ◌+◌, ◌-◌, ◌≤◌, ◌<◌, ◌≡◌, ◌≢◌, true, false, Option, none, List, [], ◌∷◌, ◌∙◌, length,
  arith, refl, ap,
}
use linux_foundation_embedde.Kernel.UserAccess.{Memory}
use linux_foundation_embedde.CharDevice.{Access, ok, overrun}
use linux_foundation_embedde.Device.Files.{◌>>=◌}
use linux_foundation_embedde.Clock.{
  Atof, buflen, cpu_mhz, colon, begins, skip_to_colon, read_speed, find_speed,
}

-- The word stands at the position `j`.
abbrev pub IsAt : List ℕ → Memory → ℕ → Type 0
IsAt [] b j = Unit {0}
IsAt (c ∷ word) b j = (b j ≡ c) × IsAt word b (j + 1)

begins-IsAt :
    (word : List ℕ) (b : Memory) (j : ℕ)
    → IsAt word b j
    → j + length word ≤ buflen
    → begins word b j ≡ ok true
unfolding begins
begins-IsAt [] b j h fits = refl
begins-IsAt (c ∷ word) b j (e, h) fits = ground (arith, begins-IsAt word b (j + 1) h (omega arith))

begins_not :
    (word : List ℕ) (b : Memory) (j : ℕ)
    → ¬ IsAt word b j
    → j + length word ≤ buflen
    → begins word b j ≡ ok false
unfolding begins
begins_not [] b j h fits = absurd (h tt)
begins_not (c ∷ word) b j h fits = elim (ℕ_discrete (b j) c) [
  | yes e ↦ ground (arith, begins_not word b (j + 1) (λ h'. h (e, h')) (omega arith))
  | no ne ↦ ground arith
]

pub skip_to_colon_lem :
    (left : ℕ) (b : Memory) (j q : ℕ)
    → j ≤ q
    → q < j + left
    → b q ≡ colon
    → ((i : ℕ) → j ≤ i → i < q → b i ≢ colon)
    → skip_to_colon left b j ≡ ok q
unfolding skip_to_colon
skip_to_colon_lem zero b j q le lt e h = absurd (omega arith)
skip_to_colon_lem (suc left) b j q le lt e h = elim (ℕ_discrete j q) [
  | yes s ↦ ground (arith, ap b s)
  | no ne ↦ ground (
    arith,
    h j (omega arith) (omega arith),
    skip_to_colon_lem left b (j + 1) q (omega arith) (omega arith) e (λ i l m. h i (omega arith) m),
  )
]

pub skip_past :
    (left : ℕ) (b : Memory) (j : ℕ)
    → ((i : ℕ) → j ≤ i → i < j + left → b i ≢ colon)
    → skip_to_colon left b j ≡ overrun
unfolding skip_to_colon
skip_past zero b j h = refl
skip_past (suc left) b j h = ground (
  arith,
  h j (omega arith) (omega arith),
  skip_past left b (j + 1) (λ i l m. h i (omega arith) (omega arith)),
)

module _ {A : Type 0} (atof : Atof A) where
  -- What the loop does where "cpu MHz" stands, with `left` bytes of the block from `j` on.
  unfoldable pub after_word : (left : ℕ) → Memory → ℕ → Access (Option A)
  after_word left b j = do k ← skip_to_colon left b j; read_speed atof b k

  -- The rest of the block from `j` on, where "cpu MHz" does not stand before `p`.
  pub find_first :
      (left : ℕ) (b : Memory) (j p : ℕ)
      → j ≤ p
      → p + length cpu_mhz ≤ buflen
      → j + left ≡ buflen
      → IsAt cpu_mhz b p
      → ((i : ℕ) → i < p → ¬ IsAt cpu_mhz b i)
      → find_speed atof left b j ≡ after_word (buflen - p) b p
  unfolding find_speed after_word
  find_first zero b j p le fits s at first = absurd (omega arith)
  find_first (suc left) b j p le fits s at first = elim (ℕ_discrete j p) [
    | yes e ↦
        let size : suc left ≡ buflen - p = omega arith in
        let here : begins cpu_mhz b j ≡ ok true =
          ap (begins cpu_mhz b) e ∙ begins-IsAt cpu_mhz b p at fits in
        rw here (λ k. after_word (size k) b (e k))
    | no ne ↦
        rw (begins_not cpu_mhz b j (first j (omega arith)) (omega arith))
          (find_first left b (j + 1) p (omega arith) fits (omega arith) at first)
  ]

  find_none :
      (left : ℕ) (b : Memory) (j : ℕ)
      → j + left ≡ buflen
      → ((i : ℕ) → i < buflen → begins cpu_mhz b i ≡ ok false)
      → find_speed atof left b j ≡ ok none
  unfolding find_speed
  find_none zero b j s h = refl
  find_none (suc left) b j s h = rw (h j (omega arith)) (find_none left b (j + 1) (omega arith) h)
