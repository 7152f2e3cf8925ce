-- ===== src/Kernel/Words.antt =====
-- Words of 32 bits in memory, their lowest byte first; and bytes that are stored one behind the other.
use linux_foundation_embedde.Base.{
  suc, List, [], ◌∷◌, ℕ, ◌+◌, ◌*◌, ◌/◌, ◌%◌, ◌^◌, ◌<◌, ◌≡◌, arith, ◌==◌, if◌then◌else◌,
}
use linux_foundation_embedde.Kernel.UserAccess.{Memory}

abbrev pub put : Memory → (offset : ℕ) → List ℕ → Memory
put m offset [] = m
put m offset (b ∷ bs) = put (λ i. if i == offset then b else m i) (suc offset) bs

-- The word at the start of a memory.
unfoldable pub load32 : Memory → ℕ
load32 m = m 0 + 256 * m 1 + 65536 * m 2 + 16777216 * m 3

unfoldable pub store32 : Memory → ℕ → Memory
store32 m v i =
    if i == 0
    then v % 256
    else if i == 1
    then v / 256 % 256
    else if i == 2
    then v / 65536 % 256
    else if i == 3
    then v / 16777216 % 256
    else m i

pub load32-store32 : (m : Memory) (v : ℕ) → v < 2 ^ 32 → load32 (store32 m v) ≡ v
unfolding load32 store32
load32-store32 m v h = omega arith

pub load32-lt : (m : Memory) → ((i : ℕ) → m i < 256) → load32 m < 2 ^ 32
unfolding load32
load32-lt m b = omega (arith, b 0, b 1, b 2, b 3)

pub load32_ext : (m n : Memory) → ((i : ℕ) → i < 4 → m i ≡ n i) → load32 m ≡ load32 n
unfolding load32
load32_ext m n e =
    omega (arith, e 0 (omega arith), e 1 (omega arith), e 2 (omega arith), e 3 (omega arith))

pub store32_above : (m : Memory) (v i : ℕ) → 3 < i → store32 m v i ≡ m i
unfolding store32
store32_above m v i h = ground arith
