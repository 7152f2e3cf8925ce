-- ===== src/Kernel/FullAccess.antt =====
-- User access that never faults: an instance of the contract of UserAccess.
use linux_foundation_embedde.Base.{ltb, ◌+◌, if◌then◌else◌, ℕ, ◌-◌, ◌≤◌, ◌≡◌, arith, refl}
use linux_foundation_embedde.Kernel.UserAccess.{Memory, UserAccess, splice, zeros}

pub to_full_lem :
    (to from : Memory) (offset n i : ℕ)
    → splice to 0 from offset n i ≡ splice to 0 from offset (n - 0) i
to_full_lem to from offset n i = ground arith

pub from_full_lem :
    (to : Memory) (offset : ℕ) (from : Memory) (n i : ℕ)
    → splice to offset from 0 n i ≡ splice (splice to offset zeros 0 n) offset from 0 (n - 0) i
from_full_lem to offset from n i = ground arith

pub zero_le : (n : ℕ) → 0 ≤ n
zero_le n = omega arith

abbrev pub full_access : UserAccess
full_access = record {
  copy_to_user = λ to from offset n. (0, splice to 0 from offset n);
  to_left = λ to from offset n. zero_le n;
  to_bytes = to_full_lem;
  copy_from_user = λ to offset from n. (0, splice to offset from 0 n);
  from_left = λ to offset from n. zero_le n;
  from_bytes = from_full_lem;
}

-- Every byte that is asked for can be accessed.
pub record IsFull (u : UserAccess) : Type 0 where
  pub to_full : (to from : Memory) (offset n : ℕ) → (u.copy_to_user to from offset n).0 ≡ 0
  pub from_full :
      (to : Memory) (offset : ℕ) (from : Memory) (n : ℕ) → (u.copy_from_user to offset from n).0 ≡ 0

abbrev pub full_access-IsFull : IsFull full_access
full_access-IsFull = record {
  to_full = λ to from offset n. refl;
  from_full = λ to offset from n. refl;
}

pub to_full_bytes :
    (u : UserAccess)
    → IsFull u
    → (to from : Memory) (offset n i : ℕ)
    → (u.copy_to_user to from offset n).1 i ≡ (if ltb i n then from (offset + i) else to i)
to_full_bytes u f to from offset n i =
    ground (arith, u.to_bytes to from offset n i, f.to_full to from offset n)

pub from_full_bytes :
    (u : UserAccess)
    → IsFull u
    → (to from : Memory) (n i : ℕ)
    → (u.copy_from_user to 0 from n).1 i ≡ (if ltb i n then from i else to i)
from_full_bytes u f to from n i =
    ground (arith, u.from_bytes to 0 from n i, f.from_full to 0 from n)
