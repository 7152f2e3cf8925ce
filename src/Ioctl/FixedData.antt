-- ===== src/Ioctl/FixedData.antt =====
-- chapter_19_ioctls/todo/lab_ioctl_data.c: commands that write and read a struct of the driver; the
-- number of bytes is encoded in the command, and so is the caller's choice.
use linux_foundation_embedde.Base.{
  ℕ, ◌≤◌, ◌<◌, ◌≡◌, ◌≢◌, ◌↔◌, ◌⊎◌, arith, not, ◌==◌, ltb, if◌then◌else◌,
}
use linux_foundation_embedde.Kernel.UserAccess.{Memory, UserAccess}
use linux_foundation_embedde.CharDevice.{Access, ok, overrun}
use linux_foundation_embedde.Kernel.FullAccess.{to_full_bytes, from_full_bytes, IsFull}
use linux_foundation_embedde.Ioctl.{Return, returns, error}

-- How the kernel's macros _IOC_TYPE, _IOC_DIR and _IOC_SIZE take a command apart; `write` and `read`
-- are the values of _IOC_WRITE and _IOC_READ, and `magic` is the 'k' of MYIOC_TYPE.
pub record Encoding : Type 0 where
  pub type_of : ℕ → ℕ
  pub dir_of : ℕ → ℕ
  pub size_of : ℕ → ℕ
  pub write : ℕ
  pub read : ℕ
  pub magic : ℕ

-- sizeof (struct my_data): an int, 4 bytes of padding, a long and 256 characters.
abbrev pub my_data_size : ℕ
my_data_size = 272

-- The value, the driver's `my_data`, and the user's memory at the address `arg`.
pub record Outcome : Type 0 where
  pub value : Return
  pub my_data : Memory
  pub user : Memory

module _ (u : UserAccess) (e : Encoding) where
  unfoldable pub mycdrv_unlocked_ioctl : (cmd : ℕ) → Memory → Memory → Access Outcome
  mycdrv_unlocked_ioctl cmd my_data user =
      let size : ℕ = e.size_of cmd in
      if not (e.type_of cmd == e.magic)
      then ok (record { value = error 22; my_data = my_data; user = user })
      else if e.dir_of cmd == e.write
      then (let (rc, data') = u.copy_from_user my_data 0 user size in
          if ltb my_data_size size
          then overrun
          else ok (record { value = returns rc; my_data = data'; user = user }))
      else if e.dir_of cmd == e.read
      then (let (rc, user') = u.copy_to_user user my_data 0 size in
          if ltb my_data_size size
          then overrun
          else ok (record { value = returns rc; my_data = my_data; user = user' }))
      else ok (record { value = error 22; my_data = my_data; user = user })

  -- The size of the command is not checked: a write or a read command overruns the driver's struct
  -- exactly when it encodes more than its 272 bytes.
  command_overruns_iff :
      (cmd : ℕ) (my_data user : Memory)
      → e.type_of cmd ≡ e.magic
      → (e.dir_of cmd ≡ e.write) ⊎ (e.dir_of cmd ≡ e.read)
      → (mycdrv_unlocked_ioctl cmd my_data user ≡ overrun) ↔ (my_data_size < e.size_of cmd)
  unfolding mycdrv_unlocked_ioctl
  command_overruns_iff cmd my_data user t d = ground arith

  -- What a write command stores in the driver's struct, a later read command gives back, as far as
  -- both commands reach and neither is larger than the struct.
  read-write_command :
      IsFull u
      → e.write ≢ e.read
      → (w r : ℕ) (my_data user out : Memory) → e.type_of w ≡ e.magic
      → e.dir_of w ≡ e.write
      → e.size_of w ≤ my_data_size
      → e.type_of r ≡ e.magic
      → e.dir_of r ≡ e.read
      → e.size_of r ≤ my_data_size
      → {s t : Outcome} → mycdrv_unlocked_ioctl w my_data user ≡ ok s
      → mycdrv_unlocked_ioctl r s.my_data out ≡ ok t
      → (i : ℕ) → i < e.size_of w
      → i < e.size_of r
      → (t.value ≡ returns 0) × (t.user i ≡ user i)
  unfolding mycdrv_unlocked_ioctl
  read-write_command f differ w r my_data user out tw dw sw tr dr sr {s} {t} p q i h k = (
    ground (arith, f.to_full out s.my_data 0 (e.size_of r)),
    ground (
      arith,
      from_full_bytes u f my_data user (e.size_of w) i,
      to_full_bytes u f out s.my_data 0 (e.size_of r) i,
    ),
  )
