-- ===== src/PutGet.antt =====
-- chapter_13_mem_user_and_kernel_space/get_and_put_user/put_and_get_driver.c: the character device
-- that moves its bytes one at a time, by put_user and get_user. It is loaded and unloaded by
-- generic_char_driver.h.
pub mod Laws
mod Tests
use linux_foundation_embedde.Base.{
  ℕ, zero, suc, ◌+◌, ◌^◌, Bool, ltb, leb, ◌==◌, if◌then◌else◌, extend, add64, to_int,
}
use linux_foundation_embedde.Kernel.UserAccess.{Memory}
use linux_foundation_embedde.CharDevice.{Access, ok, overrun, Disk, Transfer, bytes_to_do}

abbrev pub store : Memory → ℕ → ℕ → Memory
store m i v j = if j == i then v else m j

-- The rounds of `while (nbytes < bytes_to_do && …)` from 0 on: none where the `int` is negative.
abbrev pub rounds : ℕ → ℕ
rounds bytes_to_do = if ltb bytes_to_do (2 ^ 31) then bytes_to_do else 0

-- `*ppos += nbytes`, and the return.
unfoldable pub advance : ℕ → Access (ℕ × Memory) → Access Transfer
advance pos (ok (n, m)) = ok (record { nbytes = n; pos = add64 pos (extend n); bytes = m })
advance pos overrun = overrun

-- `faults i` says that put_user and get_user fail at the address `buf + i`.
module _ (faults : ℕ → Bool) where
  -- The loop of mycdrv_read, with the rounds left: what is read of the disk at `tmp` goes to the
  -- user's buffer at `nbytes`.
  unfoldable pub put_loop : Disk → ℕ → ℕ → ℕ → Memory → Access (ℕ × Memory)
  put_loop d zero tmp nbytes buf = ok (nbytes, buf)
  put_loop d (suc k) tmp nbytes buf =
      let rest = put_loop d k (suc tmp) (suc nbytes) (store buf nbytes (d.bytes tmp)) in
      if leb d.allocated tmp then overrun else if faults nbytes then ok (nbytes, buf) else rest

  -- The loop of mycdrv_write. A get_user that fails sets its target to 0.
  unfoldable pub get_loop : (allocated k tmp nbytes : ℕ) → Memory → Memory → Access (ℕ × Memory)
  get_loop allocated zero tmp nbytes buf disk = ok (nbytes, disk)
  get_loop allocated (suc k) tmp nbytes buf disk =
      let rest = get_loop allocated k (suc tmp) (suc nbytes) buf (store disk tmp (buf nbytes)) in
      if leb allocated tmp
      then overrun
      else if faults nbytes
      then ok (nbytes, store disk tmp 0)
      else rest

  unfoldable pub mycdrv_read : Disk → Memory → ℕ → ℕ → Access Transfer
  mycdrv_read d buf lbuf pos =
      advance pos (put_loop d (rounds (bytes_to_do d.ramdisk_size pos lbuf)) pos 0 buf)

  unfoldable pub mycdrv_write : Disk → Memory → ℕ → ℕ → Access Transfer
  mycdrv_write d buf lbuf pos =
      advance pos
        (get_loop d.allocated (rounds (bytes_to_do d.ramdisk_size pos lbuf)) pos 0 buf d.bytes)
