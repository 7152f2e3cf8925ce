-- ===== src/Ioctl/Programs/VarDataTest.antt =====
-- chapter_19_ioctls/todo/lab_ioctl_vardata_test.c.
use linux_foundation_embedde.Base.{
  ℕ, ◌<◌, ◌≡◌, ◌≢◌, Bool, true, ltb, if◌then◌else◌, arith, refl, ◌∙◌,
}
use linux_foundation_embedde.Kernel.UserAccess.{Memory, UserAccess}
use linux_foundation_embedde.Kernel.FullAccess.{IsFull}
use linux_foundation_embedde.Ioctl.{Return, returns}
use linux_foundation_embedde.Ioctl.FixedData.{Encoding}
use linux_foundation_embedde.Ioctl.VarData

-- What the program of variable sizes shows: both values of ioctl, and its buffer after each.
pub record Exchange : Type 0 where
  pub reading : Return
  pub received : Memory
  pub sending : Return
  pub kept : Memory

-- memset (buffer, '0', lbuf)
abbrev pub sent : (lbuf : ℕ) → Memory → Memory
sent lbuf buffer i = if ltb i lbuf then b'0' else buffer i

-- The calls of lab_ioctl_vardata_test.c with a buffer of `lbuf` bytes that malloc gave: `ior` and `iow` are the
-- commands that MY_IOR and MY_IOW make of the length, and the driver's kmalloc answers as given.
unfoldable pub vardata_test :
    UserAccess
    → Encoding
    → (ior iow lbuf : ℕ) → (allocated allocated' : Bool) → (buffer : Memory) → Exchange
vardata_test u e ior iow lbuf allocated allocated' buffer =
    let (rc, received) = (VarData.mycdrv_unlocked_ioctl u e ior allocated buffer).0 in
    let (rc', kept) = (VarData.mycdrv_unlocked_ioctl u e iow allocated' (sent lbuf received)).0 in
    record { reading = rc; received = received; sending = rc'; kept = kept }

-- With full access to its memory, commands of the driver of which the first encodes the length, and memory for the driver, the
-- program of variable sizes gets a buffer full of the letter X, and still has its own zeros after sending them;
-- both calls return 0.
vardata_test_exchanges :
    (u : UserAccess)
    → IsFull u
    → (e : Encoding) → e.write ≢ e.read
    → (ior iow lbuf : ℕ) → e.type_of ior ≡ e.magic
    → e.dir_of ior ≡ e.read
    → e.size_of ior ≡ lbuf
    → e.type_of iow ≡ e.magic
    → e.dir_of iow ≡ e.write
    → (buffer : Memory)
    → let x = vardata_test u e ior iow lbuf true true buffer in
      (x.reading ≡ returns 0)
      × (x.sending ≡ returns 0)
      × ((i : ℕ) → i < lbuf → (x.received i ≡ b'X') × (x.kept i ≡ b'0'))
unfolding vardata_test
vardata_test_exchanges u full e differ ior iow lbuf t d z t' d' buffer =
    let (value, bytes) = VarData.read_command_fills u e full differ ior buffer t d in
    rw
      (
        vardata_test,
        VarData.write_command_keeps u e full iow
            (sent lbuf (VarData.mycdrv_unlocked_ioctl u e ior true buffer).0.1) t' d',
      )
      (value, refl, λ i h. (bytes i ∙ ground arith, ground arith))
