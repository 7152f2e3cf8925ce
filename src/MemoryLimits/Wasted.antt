-- ===== src/MemoryLimits/Wasted.antt =====
-- lab_app_wastemem.c of chapter_10_memory: a program that asks for blocks of 16 MB until it has asked for more
-- than `m` MB.
use native.Mathlib.Decide.{dec_le}
use linux_foundation_embedde.Base.{
  ℕ, zero, suc, ◌+◌, ◌-◌, ◌*◌, ◌/◌, ◌%◌, ◌^◌, ◌≤◌, ◌<◌, ◌≡◌, Bool, true, false, Option, none, some,
  List, [], ◌∷◌, leb, if◌then◌else◌, arith, ap, ◌∙◌,
}

-- BS and CHUNK.
abbrev pub bs : ℕ
bs = 16

abbrev pub chunk : ℕ
chunk = 1024 * 1024 * bs

-- `m`, which the program takes from the machine's memory: 90 percent, in MB. All products are small enough for
-- an `int`.
unfoldable pub default_size : (totalram : ℕ) → ℕ
default_size totalram = 9 * (totalram / (1024 * 1024)) / 10

-- What becomes of the run: the fills made, as the byte that each block was filled with, and whether it wrote
-- through a NULL pointer.
pub data Outcome : Type 0 where
  quitting : List ℕ → Outcome
  null_pointer : List ℕ → Outcome

-- A block filled with the low byte of `j`, before the rest.
abbrev before : ℕ → Option Outcome → Option Outcome
before j none = none
before j (some (quitting fills)) = some (quitting (j % 256 ∷ fills))
before j (some (null_pointer fills)) = some (null_pointer (j % 256 ∷ fills))

-- The loop, on fuel, from `j` on: `granted j` is the answer of malloc in the round of `j`, which is not looked
-- at, and memset writes the low byte of `j`. `none` when the fuel runs out.
unfoldable pub waste_loop : (granted : ℕ → Bool) → (fuel j m : ℕ) → Option Outcome
waste_loop granted zero j m = none
waste_loop granted (suc fuel) j m =
    let rest = waste_loop granted fuel (j + bs) m in
    if leb j m
    then (if granted j then before j rest else some (null_pointer []))
    else some (quitting [])

-- As many fills as rounds, of j, j + 16, and so on.
abbrev pub fills_from : (rounds j : ℕ) → List ℕ
fills_from zero j = []
fills_from (suc k) j = j % 256 ∷ fills_from k (j + bs)

-- As many rounds as the program makes.
abbrev pub rounds_of : (j m : ℕ) → ℕ
rounds_of j m = if leb j m then (m - j) / bs + 1 else 0

rounds_of-suc : (j m : ℕ) → j ≤ m → rounds_of j m ≡ suc (rounds_of (j + bs) m)
rounds_of-suc j m h = ground arith

waste_loop_lem :
    (granted : ℕ → Bool) (fuel j m : ℕ)
    → ((i : ℕ) → i ≤ m → granted i ≡ true)
    → rounds_of j m < fuel
    → waste_loop granted fuel j m ≡ some (quitting (fills_from (rounds_of j m) j))
unfolding waste_loop
waste_loop_lem granted zero j m g h = absurd (omega arith)
waste_loop_lem granted (suc fuel) j m g h = elim (dec_le j m) [
  | yes p ↦
      let e = rounds_of-suc j m p in
      rw (e, waste_loop_lem granted fuel (j + bs) m g (omega arith), g j p) (ground arith)
  | no p ↦ ground arith
]

-- If every malloc succeeds, the program ends, for every `m` that is an `int`, after `m / 16 + 1` rounds, more
-- than it needs for `m` MB: in round k it fills a block of 16 MB with the low byte of 16 * k.
pub waste_fills :
    (granted : ℕ → Bool) (m : ℕ)
    → m + bs < 2 ^ 31
    → ((i : ℕ) → i ≤ m → granted i ≡ true)
    → (waste_loop granted (m / bs + 2) 0 m ≡ some (quitting (fills_from (m / bs + 1) 0)))
      × (m * (1024 * 1024) < (m / bs + 1) * chunk)
waste_fills granted m small g =
    let e : rounds_of 0 m ≡ m / bs + 1 = ground arith in
    (
      waste_loop_lem granted (m / bs + 2) 0 m g (omega arith)
          ∙ ap (λ k. some (quitting (fills_from k 0))) e,
      omega arith,
    )

-- If a malloc fails, the program writes through the NULL pointer, after it has filled the blocks it got.
pub waste_crashes :
    (granted : ℕ → Bool) (k j m fuel : ℕ)
    → ((i : ℕ) → i < k → granted (j + i * bs) ≡ true)
    → granted (j + k * bs) ≡ false
    → j + k * bs ≤ m
    → k < fuel
    → waste_loop granted fuel j m ≡ some (null_pointer (fills_from k j))
unfolding waste_loop
waste_crashes granted k j m zero g f le lt = absurd (omega arith)
waste_crashes granted zero j m (suc fuel) g f le lt =
    let e : j + zero * bs ≡ j = omega arith in ground (arith, ap granted e)
waste_crashes granted (suc k) j m (suc fuel) g f le lt =
    let first : j + 0 * bs ≡ j = omega arith in
    let last : j + suc k * bs ≡ j + bs + k * bs = omega arith in
    rw
      (waste_crashes granted k (j + bs) m fuel
        (λ i h.
          let e : j + suc i * bs ≡ j + bs + i * bs = omega arith in
          rw e at (g (suc i) (omega arith)))
        (rw last at f) (omega arith) (omega arith))
      (ground (arith, ap granted first, g 0 (omega arith)))
