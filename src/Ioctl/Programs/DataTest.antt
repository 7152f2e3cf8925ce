-- ===== src/Ioctl/Programs/DataTest.antt =====
-- chapter_19_ioctls/todo/lab_ioctl_data_test.c: it reads the struct of the driver, sends one of its own and reads
-- again.
use linux_foundation_embedde.Base.{
  ℕ, ◌≡◌, ◌≢◌, Bool, true, false, List, [], ◌∷◌, ltb, if◌then◌else◌, arith, refl, ap, ◌∙◌, fun_ext,
}
use linux_foundation_embedde.Kernel.UserAccess.{Memory, UserAccess}
use linux_foundation_embedde.Kernel.FullAccess.{to_full_bytes, from_full_bytes, IsFull}
use linux_foundation_embedde.CharDevice.{Access, ok}
use linux_foundation_embedde.Device.Files.{◌>>=◌}
use linux_foundation_embedde.Ioctl.{Return, returns}
use linux_foundation_embedde.Kernel.Words.{put}
use linux_foundation_embedde.Ioctl.FixedData
use linux_foundation_embedde.Ioctl.FixedData.{Encoding, my_data_size}

-- The struct that lab_ioctl_data_test.c sends: `my_data.i = 10` in bytes 0 to 3, `my_data.x = -700` in
-- bytes 8 to 15, and the text "a string" with its end from byte 16 on.
abbrev pub fill_up : Memory → Memory
fill_up m =
    put
      (put (put m 0 (10 ∷ 0 ∷ 0 ∷ 0 ∷ [])) 8
        (0x44 ∷ 0xfd ∷ 0xff ∷ 0xff ∷ 0xff ∷ 0xff ∷ 0xff ∷ 0xff ∷ []))
      16 (b'a' ∷ b' ' ∷ b's' ∷ b't' ∷ b'r' ∷ b'i' ∷ b'n' ∷ b'g' ∷ 0 ∷ [])

-- What the three calls of ioctl return, and the program's struct at the end. `ior` and `iow` are the
-- commands that _IOR and _IOW make, and `my_data` is the driver's struct.
unfoldable pub data_test :
    UserAccess → Encoding → (ior iow : ℕ) → (my_data user : Memory) → Access (List Return × Memory)
data_test u e ior iow my_data user = do
  a ← FixedData.mycdrv_unlocked_ioctl u e ior my_data user
  b ← FixedData.mycdrv_unlocked_ioctl u e iow a.my_data (fill_up a.user)
  c ← FixedData.mycdrv_unlocked_ioctl u e ior b.my_data b.user
  ok (a.value ∷ b.value ∷ c.value ∷ [], c.user)

same : (c : Bool) (a b : ℕ) → (if c then if c then a else b else a) ≡ a
same true a b = refl
same false a b = refl

-- The commands are those of the struct.
pub record IsOfStruct (e : Encoding) (ior iow : ℕ) : Type 0 where
  pub differ : e.write ≢ e.read
  pub ior_type : e.type_of ior ≡ e.magic
  pub iow_type : e.type_of iow ≡ e.magic
  pub ior_dir : e.dir_of ior ≡ e.read
  pub iow_dir : e.dir_of iow ≡ e.write
  pub ior_size : e.size_of ior ≡ my_data_size
  pub iow_size : e.size_of iow ≡ my_data_size

module _ (u : UserAccess) (full : IsFull u) (e : Encoding) (ior iow : ℕ)
    (k : IsOfStruct e ior iow) where
  read_call :
      (my_data user : Memory)
      → FixedData.mycdrv_unlocked_ioctl u e ior my_data user
        ≡ ok (record {
          value = returns 0;
          my_data = my_data;
          user = λ i. if ltb i my_data_size then my_data i else user i;
        })
  unfolding FixedData.mycdrv_unlocked_ioctl
  read_call my_data user =
      let bytes : (u.copy_to_user user my_data 0 my_data_size).1
          ≡ (λ i. if ltb i my_data_size then my_data i else user i) =
        fun_ext λ i. to_full_bytes u full user my_data 0 my_data_size i ∙ ground arith in
      rw (k.ior_type, k.ior_dir, k.ior_size, full.to_full user my_data 0 my_data_size, bytes)
        (ground (arith, k.differ))

  write_call :
      (my_data user : Memory)
      → FixedData.mycdrv_unlocked_ioctl u e iow my_data user
        ≡ ok (record {
          value = returns 0;
          my_data = λ i. if ltb i my_data_size then user i else my_data i;
          user = user;
        })
  unfolding FixedData.mycdrv_unlocked_ioctl
  write_call my_data user =
      let bytes : (u.copy_from_user my_data 0 user my_data_size).1
          ≡ (λ i. if ltb i my_data_size then user i else my_data i) =
        fun_ext λ i. from_full_bytes u full my_data user my_data_size i in
      rw (k.iow_type, k.iow_dir, k.iow_size, full.from_full my_data 0 user my_data_size, bytes)
        (ground (arith, k.differ))

  -- The program of the struct, with full access to its memory: the three calls return 0, and the last
  -- one reads the struct back as it was sent.
  pub data_test_reads_back :
      (my_data user : Memory)
      → data_test u e ior iow my_data user
        ≡ ok (
          returns 0 ∷ returns 0 ∷ returns 0 ∷ [],
          fill_up (λ i. if ltb i my_data_size then my_data i else user i),
        )
  unfolding data_test
  data_test_reads_back my_data user =
      let read : Memory = λ i. if ltb i my_data_size then my_data i else user i in
      rw
        (
          read_call my_data user,
          write_call my_data (fill_up read),
          read_call (λ i. if ltb i my_data_size then fill_up read i else my_data i) (fill_up read),
        )
        (ap (λ m. ok (returns 0 ∷ returns 0 ∷ returns 0 ∷ [], m))
          (fun_ext λ i. same (ltb i my_data_size) (fill_up read i) (my_data i)))
