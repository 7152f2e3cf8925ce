-- ===== src/Ioctl.antt =====
-- The ioctl handlers of chapter_19_ioctls.
pub mod Basic
pub mod FixedData
pub mod VarData
pub mod Signal
pub mod Programs
mod Tests
use linux_foundation_embedde.Base.{Bool, true, false, ℕ}

-- The value of a handler: a number, or a negative error number.
pub data Return : Type 0 where
  returns : ℕ → Return
  error : ℕ → Return

-- `ioctl (…) < 0`, as the caller sees it.
abbrev pub is_error : Return → Bool
is_error (returns v) = false
is_error (error e) = true
