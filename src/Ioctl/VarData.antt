-- ===== src/Ioctl/VarData.antt =====
-- chapter_19_ioctls/todo/lab_ioctl_vardata.c: commands that move as many bytes as the command
-- encodes, through a buffer that each call allocates.
use linux_foundation_embedde.Base.{
  ℕ, ◌≡◌, ◌≢◌, ◌↔◌, arith, Bool, true, not, ◌==◌, if◌then◌else◌, ltb, ◌||◌,
}
use linux_foundation_embedde.Kernel.UserAccess.{Memory, UserAccess}
use linux_foundation_embedde.Kernel.Ledger.{
  acquire, kfree, memory, Run, ◌>>=◌, ◌>>◌, return, call, ask, settle, IsBalanced,
}
use linux_foundation_embedde.Kernel.FullAccess.{to_full_bytes, IsFull}
use linux_foundation_embedde.Ioctl.{Return, returns, error}
use linux_foundation_embedde.Ioctl.FixedData.{Encoding}

-- memset (buffer, 'X', size)
abbrev pub filled : Memory
filled i = b'X'

module _ (u : UserAccess) (e : Encoding) where
  -- `allocated` is the answer of kmalloc. The value, and the user's memory at the address `arg`.
  -- -EINVAL is 22, -ENOMEM is 12.
  unfoldable pub mycdrv_unlocked_ioctl :
      (cmd : ℕ) → (allocated : Bool) → Memory → Run (Return × Memory)
  mycdrv_unlocked_ioctl cmd allocated user =
      if not (e.type_of cmd == e.magic) then return (error 22, user) else (do
        buffer ← ask (acquire (memory 0)) allocated
        if not buffer
            then return (error 12, user)
            else if e.dir_of cmd == e.write
            then (do
              call (kfree 0 true)
              return (returns (u.copy_from_user filled 0 user (e.size_of cmd)).0, user))
            else if e.dir_of cmd == e.read
            then (let (rc, user') = u.copy_to_user user filled 0 (e.size_of cmd) in
                do call (kfree 0 true); return (returns rc, user'))
            else return (error 22, user))

  -- A call leaves its buffer allocated exactly when the command has the driver's type, the buffer
  -- could be allocated, and the direction is neither write nor read: that branch returns before the
  -- kfree.
  vardata-IsBalanced_iff :
      (cmd : ℕ) (allocated : Bool) (user : Memory)
      → IsBalanced (mycdrv_unlocked_ioctl cmd allocated user) ↔ (
          not (e.type_of cmd == e.magic)
            || not allocated
            || e.dir_of cmd == e.write
            || e.dir_of cmd == e.read
          ≡ true)
  unfolding mycdrv_unlocked_ioctl settle
  vardata-IsBalanced_iff cmd allocated user = ground arith

  -- A read command fills as many bytes of the user's memory as it encodes with the letter X, and
  -- leaves the others.
  pub read_command_fills :
      IsFull u
      → e.write ≢ e.read
      → (cmd : ℕ) (user : Memory) → e.type_of cmd ≡ e.magic
      → e.dir_of cmd ≡ e.read
      → let (value, m) = (mycdrv_unlocked_ioctl cmd true user).0 in
        (value ≡ returns 0) × ((i : ℕ) → m i ≡ (if ltb i (e.size_of cmd) then b'X' else user i))
  unfolding mycdrv_unlocked_ioctl
  read_command_fills f differ cmd user t d = (
    ground (arith, f.to_full user filled 0 (e.size_of cmd)),
    λ i. ground (arith, to_full_bytes u f user filled 0 (e.size_of cmd) i),
  )

  -- A write command copies the user's memory and leaves it as it was.
  pub write_command_keeps :
      IsFull u
      → (cmd : ℕ) (user : Memory) → e.type_of cmd ≡ e.magic
      → e.dir_of cmd ≡ e.write
      → (mycdrv_unlocked_ioctl cmd true user).0 ≡ (returns 0, user)
  unfolding mycdrv_unlocked_ioctl
  write_command_keeps f cmd user t d = ground (arith, f.from_full filled 0 user (e.size_of cmd))
