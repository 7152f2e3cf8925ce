-- ===== src/Ioctl/Basic.antt =====
-- chapter_19_ioctls/basic_ioctls/basic_ioctl.c and basic_ioctl.h: a device with three commands, of
-- which CONFIG exchanges a register value through a struct of the user.
use linux_foundation_embedde.Base.{
  ℕ, ◌+◌, ◌-◌, ◌^◌, ◌<◌, ◌≡◌, ◌≢◌, ◌∙◌, arith, refl, Bool, true, false, ◌||◌, ◌==◌, ltb,
  if◌then◌else◌,
}
use linux_foundation_embedde.Kernel.UserAccess.{Memory, UserAccess}
use linux_foundation_embedde.Kernel.FullAccess.{to_full_bytes, from_full_bytes, IsFull}
use linux_foundation_embedde.Ioctl.{Return, returns, error}
use linux_foundation_embedde.Kernel.Words.{
  load32, store32, load32-store32, load32-lt, load32_ext, store32_above,
}

-- struct my_ioctl_data: the register in bytes 0 to 3, the message in bytes 4 to 35.
abbrev pub my_ioctl_data_size : ℕ
my_ioctl_data_size = 36

abbrev pub ctrl_vampire : ℕ
ctrl_vampire = 0x394828

abbrev pub ctrl_umpire : ℕ
ctrl_umpire = 0x438949

abbrev pub ctrl_perspire : ℕ
ctrl_perspire = 0x383054

abbrev pub is_mode : ℕ → Bool
is_mode csr = csr == ctrl_vampire || csr == ctrl_umpire || csr == ctrl_perspire

-- The numbers that the macros _IOWR and _IO of the kernel give the commands.
pub record Commands : Type 0 where
  pub config : ℕ
  pub start : ℕ
  pub stop : ℕ

-- `my_data.message[0] = 0`
abbrev pub clear_message : Memory → Memory
clear_message m i = if i == 4 then 0 else m i

-- `~csr`, of which the register keeps 32 bits
abbrev pub complement : ℕ → ℕ
complement csr = 2 ^ 32 - 1 - csr

module _ (u : UserAccess) (k : Commands) where
  -- `stack` is what the local `my_data` holds before it is written, and `user` the memory at the
  -- address `data`. -EFAULT is 14, -EINVAL is 22.
  unfoldable pub configure : Memory → Memory → Return × Memory
  configure stack user =
      let (left, my_data) = u.copy_from_user stack 0 user my_ioctl_data_size in
      let csr : ℕ = load32 my_data in
      let answer : Memory = store32 (clear_message my_data) (complement csr) in
      let (left', user') = u.copy_to_user user answer 0 my_ioctl_data_size in
      if ltb 0 left
      then (error 14, user)
      else if is_mode csr
      then (if ltb 0 left' then (error 14, user') else (returns 0, user'))
      else (error 22, user)

  unfoldable pub my_ioctl : (cmd : ℕ) → Memory → Memory → Return × Memory
  my_ioctl cmd stack user =
      if cmd == k.config
      then configure stack user
      else if cmd == k.start
      then (returns 0, user)
      else if cmd == k.stop
      then (returns 0, user)
      else (error 22, user)

  load32-copied :
      IsFull u
      → (stack user : Memory)
      → load32 (u.copy_from_user stack 0 user my_ioctl_data_size).1 ≡ load32 user
  load32-copied f stack user =
      load32_ext _ user (λ i h. from_full_bytes u f stack user my_ioctl_data_size i ∙ ground arith)

  -- The struct that CONFIG sends back, and what the user's memory becomes.
  abbrev filled : Memory → Memory → Memory
  filled stack user =
      store32 (clear_message (u.copy_from_user stack 0 user my_ioctl_data_size).1)
        (complement (load32 user))

  answered : Memory → Memory → Memory
  answered stack user = (u.copy_to_user user (filled stack user) 0 my_ioctl_data_size).1

  configure-eq :
      IsFull u
      → (stack user : Memory)
      → configure stack user
        ≡ (if is_mode (load32 user) then (returns 0, answered stack user) else (error 22, user))
  unfolding configure answered
  configure-eq f stack user = rw (
    load32-copied f stack user,
    f.from_full stack 0 user my_ioctl_data_size,
    f.to_full user (filled stack user) 0 my_ioctl_data_size,
  )

  answered_bytes :
      (f : IsFull u) (stack user : Memory) (i : ℕ)
      → answered stack user i ≡ (if ltb i 36 then filled stack user i else user i)
  unfolding answered
  answered_bytes f stack user i = to_full_bytes u f user _ 0 36 i ∙ ground arith

  -- With the user's struct accessible and one of the three modes in its register, CONFIG succeeds.
  -- The register then holds the complement of the mode, the message is the empty string, and no
  -- other byte of the user has changed. The user's memory is made of bytes.
  pub config_answers :
      IsFull u
      → (stack user : Memory) → ((i : ℕ) → user i < 256)
      → is_mode (load32 user) ≡ true
      → (m : Memory) × (my_ioctl k.config stack user ≡ (returns 0, m))
        × (load32 m + load32 user ≡ 2 ^ 32 - 1)
        × (m 4 ≡ 0)
        × ((i : ℕ) → m (5 + i) ≡ user (5 + i))
  unfolding my_ioctl
  config_answers f stack user b mode = (
    answered stack user,
    ground (arith, configure-eq f stack user),
    omega (
      arith,
      load32_ext (answered stack user) (filled stack user)
          (λ i h. answered_bytes f stack user i ∙ ground arith),
      load32-store32 (clear_message (u.copy_from_user stack 0 user 36).1) (complement (load32 user))
          (omega arith),
      load32-lt user b,
    ),
    answered_bytes f stack user 4 ∙ store32_above _ _ 4 (omega arith) ∙ refl,
    λ i.
        answered_bytes f stack user (5 + i)
        ∙ ground (
          arith,
          store32_above (clear_message (u.copy_from_user stack 0 user 36).1)
              (complement (load32 user)) (5 + i) (omega arith),
          from_full_bytes u f stack user 36 (5 + i),
        ),
  )

  -- A register that is none of the three modes is refused, with the user's memory unchanged.
  config_refuses :
      IsFull u
      → (stack user : Memory) → is_mode (load32 user) ≡ false
      → my_ioctl k.config stack user ≡ (error 22, user)
  unfolding my_ioctl
  config_refuses f stack user mode = ground (arith, configure-eq f stack user)

  -- A command that is none of the three is refused, START and STOP succeed, and none of these
  -- touches the user's memory.
  pub other_commands :
      (cmd : ℕ) (stack user : Memory)
      → cmd ≢ k.config
      → my_ioctl cmd stack user
        ≡ (if cmd == k.start || cmd == k.stop then returns 0 else error 22, user)
  unfolding my_ioctl
  other_commands cmd stack user h = ground arith
