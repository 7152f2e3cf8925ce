-- ===== src/Kernel/UserAccess.antt =====
-- The user-access routines of linux/uaccess.h. The drivers only call them, so they are a record of
-- functions with the behaviour that the kernel documents for them.
use linux_foundation_embedde.Base.{
  ap, arith, ◌<◌, ℕ, ◌+◌, ◌-◌, ◌≤◌, ◌≡◌, ltb, leb, if◌then◌else◌, ◌&&◌,
}

-- The bytes of a buffer by their offset in it.
abbrev pub Memory : Type 0
Memory = ℕ → ℕ

-- `to` after the `n` bytes of `from` from `source` on were stored from `target` on.
abbrev pub splice : Memory → ℕ → Memory → ℕ → ℕ → Memory
splice to target from source n i =
    if leb target i && ltb i (target + n) then from (source + (i - target)) else to i

pub splice_lem :
    (to : Memory) (target : ℕ) (from : Memory) (n i : ℕ)
    → i < n
    → splice to target from 0 n (target + i) ≡ from i
splice_lem to target from n i h =
    let e : 0 + (target + i - target) ≡ i = omega arith in ground (arith, ap from e)

abbrev pub zeros : Memory
zeros i = 0

-- A copy returns the number of bytes that it left uncopied, beside the memory written.
pub record UserAccess : Type 0 where
  -- copy_to_user: `to` is the user's buffer, `from` the kernel's, read from an offset on
  pub copy_to_user : (to from : Memory) (offset n : ℕ) → ℕ × Memory
  pub to_left : (to from : Memory) (offset n : ℕ) → (copy_to_user to from offset n).0 ≤ n
  pub to_bytes :
      (to from : Memory) (offset n i : ℕ)
      → (copy_to_user to from offset n).1 i
        ≡ splice to 0 from offset (n - (copy_to_user to from offset n).0) i
  -- copy_from_user: `to` is the kernel's buffer, written from an offset on; what could not be
  -- copied is set to zero
  pub copy_from_user : (to : Memory) (offset : ℕ) (from : Memory) (n : ℕ) → ℕ × Memory
  pub from_left :
      (to : Memory) (offset : ℕ) (from : Memory) (n : ℕ) → (copy_from_user to offset from n).0 ≤ n
  pub from_bytes :
      (to : Memory) (offset : ℕ) (from : Memory) (n i : ℕ)
      → (copy_from_user to offset from n).1 i
        ≡ splice
            (splice to offset zeros 0 n)
            offset
            from
            0
            (n - (copy_from_user to offset from n).0)
            i
