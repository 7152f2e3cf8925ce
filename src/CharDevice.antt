-- ===== src/CharDevice.antt =====
-- The character device over a RAM disk of
-- chapter_13_mem_user_and_kernel_space/get_and_put_user/generic_char_driver.h: its read and write
-- handlers, whose text the `lab_char.h` headers of the other chapters repeat.
pub mod Bounds
pub mod Contents
pub mod Module
mod Tests
use linux_foundation_embedde.Base.{
  ℕ, ◌+◌, ◌-◌, ◌%◌, ◌^◌, Bool, ltb, leb, ◌==◌, ◌||◌, if◌then◌else◌, to_int, extend, add64, sub64,
}
use linux_foundation_embedde.Kernel.UserAccess.{Memory, UserAccess}
use linux_foundation_embedde.Kernel.Ledger.{Status, success}

-- The outcome of code that may touch memory outside its buffer, which C leaves undefined.
pub data Access {ℓ} (A : Type ℓ) : Type ℓ where
  ok : A → Access A
  overrun : Access A

-- `ramdisk` and `ramdisk_size`; `allocated` is the size of the block behind the pointer.
pub record Disk : Type 0 where
  pub bytes : Memory
  pub allocated : ℕ
  pub ramdisk_size : ℕ

-- Whether the `n` bytes from `pos` on lie in the block.
abbrev pub in_block : Disk → ℕ → ℕ → Bool
in_block d pos n = n == 0 || leb (pos + n) d.allocated

-- `maxbytes = ramdisk_size - *ppos` and `bytes_to_do = maxbytes > lbuf ? lbuf : maxbytes`: the
-- `int` is compared as a `size_t`.
unfoldable pub bytes_to_do : ℕ → ℕ → ℕ → ℕ
bytes_to_do ramdisk_size pos lbuf =
    let maxbytes = to_int (sub64 ramdisk_size pos) in
    if ltb lbuf (extend maxbytes) then to_int lbuf else maxbytes

-- The result of a transfer: the return value, `*ppos`, and the memory written.
pub record Transfer : Type 0 where
  pub nbytes : ℕ
  pub pos : ℕ
  pub bytes : Memory

-- `nbytes = asked - left`, an `int` that is added to `*ppos` and returned.
abbrev pub transferred : ℕ → ℕ → ℕ × Memory → Transfer
transferred asked pos (left, m) =
    let nbytes = to_int (sub64 asked left) in
    record { nbytes = nbytes; pos = add64 pos (extend nbytes); bytes = m }

-- The static counter of mycdrv_generic_open, an `int`.
unfoldable pub mycdrv_generic_open : ℕ → Status × ℕ
mycdrv_generic_open counter = (success, to_int (counter + 1))

unfoldable pub mycdrv_generic_release : Status
mycdrv_generic_release = success

module _ (u : UserAccess) where
  open u use {copy_to_user, copy_from_user}

  -- `buf` is the user's memory from the address `buf` on.
  unfoldable pub mycdrv_generic_read : Disk → Memory → ℕ → ℕ → Access Transfer
  mycdrv_generic_read d buf lbuf pos =
      let n = extend (bytes_to_do d.ramdisk_size pos lbuf) in
      if in_block d pos n then ok (transferred n pos (copy_to_user buf d.bytes pos n)) else overrun

  unfoldable pub mycdrv_generic_write : Disk → Memory → ℕ → ℕ → Access Transfer
  mycdrv_generic_write d buf lbuf pos =
      let n = extend (bytes_to_do d.ramdisk_size pos lbuf) in
      if in_block d pos n
      then ok (transferred n pos (copy_from_user d.bytes pos buf n))
      else overrun
