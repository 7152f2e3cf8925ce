-- ===== src/Base/Words.antt =====
-- C's integers as bit patterns: `int` and `unsigned int` below 2 ^ 32, `size_t`, `long` and
-- `loff_t` below 2 ^ 64.
use Prim.Native.Nat.{ℕ, ◌+◌, ◌-◌, ◌%◌, ◌^◌}
use mathlib.Core.Bool.{Bool}
use linux_foundation_embedde.Base.Tests.{ltb, if◌then◌else◌}

-- An assignment to an `int` keeps the low 32 bits.
abbrev pub to_int : ℕ → ℕ
to_int x = x % 2 ^ 32

-- An `int` in an expression with a `size_t` or a `loff_t` is extended by its sign.
abbrev pub extend : ℕ → ℕ
extend x = if ltb x (2 ^ 31) then x else x + 2 ^ 64 - 2 ^ 32

abbrev pub add64 : ℕ → ℕ → ℕ
add64 a b = (a + b) % 2 ^ 64

-- `-` on ℕ stops at 0, so the modulus is added first.
abbrev pub sub64 : ℕ → ℕ → ℕ
sub64 a b = (a + 2 ^ 64 - b) % 2 ^ 64

-- The test `a < b` of two `int`s.
abbrev pub int_ltb : ℕ → ℕ → Bool
int_ltb a b = ltb ((a + 2 ^ 31) % 2 ^ 32) ((b + 2 ^ 31) % 2 ^ 32)
