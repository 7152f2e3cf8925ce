-- ===== src/Kernel/Splice.antt =====
-- Block copies that follow one another.
use linux_foundation_embedde.Base.{ℕ, ◌+◌, ◌-◌, ◌≡◌, arith, ap, fun_ext}
use native.Mathlib.Decide.{dec_lt}
use linux_foundation_embedde.Kernel.UserAccess.{Memory, splice}

-- A copy of no bytes.
pub splice-zero :
    (to : Memory) (target : ℕ) (from : Memory) (source : ℕ) → splice to target from source 0 ≡ to
splice-zero to target from source = fun_ext λ i. ground arith

-- A copy that goes on where another ended.
pub splice-splice :
    (to : Memory) (target : ℕ) (from : Memory) (source n k : ℕ)
    → splice (splice to target from source n) (target + n) from (source + n) k
      ≡ splice to target from source (n + k)
splice-splice to target from source n k = fun_ext λ i. elim (dec_lt i (target + n)) [
  | yes p ↦ ground arith
  | no p ↦
      let e : source + n + (i - (target + n)) ≡ source + (i - target) = omega arith in
      ground (arith, ap from e)
]
