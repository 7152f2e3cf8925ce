-- ===== src/Clock/Tests.antt =====
-- The theorem on getmhz at a concrete text.
use linux_foundation_embedde.Base.{
  ℕ, zero, suc, List, [], ◌∷◌, ◌+◌, ◌-◌, ◌<◌, ◌≡◌, ◌≢◌, true, some, arith, refl, ap,
}
use linux_foundation_embedde.Kernel.UserAccess.{Memory, zeros}
use linux_foundation_embedde.CharDevice.{ok}
use linux_foundation_embedde.Clock.{Atof, cpu_mhz, colon, getmhz}
use linux_foundation_embedde.Clock.Search.{IsAt}
use linux_foundation_embedde.Clock.Rate.{IsFirst, IsRate, getmhz_reads_rate}

-- A reader of numbers of one digit.
abbrev one_digit : Atof ℕ
one_digit = record {
  number = λ b pos. b pos - 48;
  looked = λ b pos. pos + 1;
  same_number = λ b b' pos h. ap (λ c. c - 48) (h pos (omega arith) (omega arith));
  same_looked = λ b b' pos h. refl;
}

-- "\ncpu MHz:3\n"
abbrev byte_of : List ℕ → Memory
byte_of [] i = 0
byte_of (c ∷ rest) zero = c
byte_of (c ∷ rest) (suc i) = byte_of rest i

abbrev text : Memory
text = byte_of (10 ∷ 99 ∷ 112 ∷ 117 ∷ 32 ∷ 77 ∷ 72 ∷ 122 ∷ 58 ∷ 51 ∷ 10 ∷ [])

not_before : (i : ℕ) → i < 1 → ¬ IsAt cpu_mhz text i
not_before zero lt at = absurd (omega (arith, at.0))
not_before (suc i) lt at = absurd (omega arith)

no_colon : (i : ℕ) → i < 8 → text i ≢ colon
no_colon zero lt e = absurd (omega arith)
no_colon (suc zero) lt e = absurd (omega arith)
no_colon (suc (suc zero)) lt e = absurd (omega arith)
no_colon (suc (suc (suc zero))) lt e = absurd (omega arith)
no_colon (suc (suc (suc (suc zero)))) lt e = absurd (omega arith)
no_colon (suc (suc (suc (suc (suc zero))))) lt e = absurd (omega arith)
no_colon (suc (suc (suc (suc (suc (suc zero)))))) lt e = absurd (omega arith)
no_colon (suc (suc (suc (suc (suc (suc (suc zero))))))) lt e = absurd (omega arith)
no_colon (suc (suc (suc (suc (suc (suc (suc (suc i)))))))) lt e = absurd (omega arith)

text-IsFirst : IsFirst text 11 1
text-IsFirst = record {
  at = (refl, (refl, (refl, (refl, (refl, (refl, (refl, tt)))))));
  first = not_before;
  fits = omega arith;
  in_block = omega arith;
}

text-IsRate : IsRate one_digit text 11 1 8
text-IsRate = record {
  behind = omega arith;
  inside = omega arith;
  at = refl;
  first = λ i l m. no_colon i m;
  ends = omega arith;
}

getmhz_reads_rate_example : getmhz one_digit true 11 text zeros ≡ some (ok (some 3))
getmhz_reads_rate_example = getmhz_reads_rate one_digit text zeros 11 1 text-IsFirst 8 text-IsRate
