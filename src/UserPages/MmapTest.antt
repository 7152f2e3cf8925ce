-- ===== src/UserPages/MmapTest.antt =====
-- lab_mmap_test.c: a program that maps the RAM disk of lab_mmap.c, writes to the mapping and compares
-- it with what read gives.
pub mod Agrees
use linux_foundation_embedde.Base.{
  ℕ, zero, suc, ◌+◌, ◌-◌, ◌*◌, ◌/◌, ◌%◌, ◌^◌, ◌≤◌, ◌<◌, ◌≡◌, Bool, true, false, not, ◌&&◌, ◌||◌,
  Option, none, some, ltb, leb, ◌==◌, if◌then◌else◌, arith, refl, ap, ◌∙◌, fun_ext,
}
use linux_foundation_embedde.Kernel.UserAccess.{Memory, UserAccess, splice}
use linux_foundation_embedde.Kernel.FullAccess.{IsFull}
use linux_foundation_embedde.CharDevice.{Access, ok, overrun, Disk}
use linux_foundation_embedde.CharDevice.Bounds.{IsValid, room}
use linux_foundation_embedde.PutGet.{store}
use linux_foundation_embedde.Device.{Device}
use linux_foundation_embedde.Device.Files.{◌>>=◌}
use linux_foundation_embedde.Ioctl.{is_error}
use linux_foundation_embedde.UserPages.{page_size}
use linux_foundation_embedde.UserPages.Mmap.{
  Mapping, mapped, refused, mycdrv_mmap, mycdrv_unlocked_ioctl, get_bufsize, load64, IsPaged,
  bufsize_maps_whole,
}

-- How the program ends; the division by zero of `random () % j` kills it.
pub data Verdict : Type 0 where
  success : Verdict
  failure : Verdict
  killed : Verdict

-- memcmp (a, b, len) == 0, from byte `j` on.
unfoldable pub same : (a b : Memory) (len j : ℕ) → Bool
same a b zero j = true
same a b (suc len) j = a j == b j && same a b len (suc j)

-- The program reads from the start of the device, and goes on with what was read or exits.
unfoldable pub read_and_compare :
    Device → Disk → (read_buf mmap_buf : Memory) → ℕ → Access (Option Memory)
read_and_compare dev d read_buf mmap_buf len = do
  t ← dev.read d read_buf len 0
  ok (if t.nbytes == len && same t.bytes mmap_buf len 0 then some t.bytes else none)

-- Byte `j` of the mapping is byte `j` of the page frames from `pfn` on, and the RAM disk is at the
-- address `physical`.
module _ (physical pfn : ℕ) where
  -- What the mapping shows.
  abbrev pub mmap_buf : Disk → Memory
  mmap_buf d j = d.bytes (pfn * page_size + j - physical)

  unfoldable pub poke : (j value : ℕ) → Disk → Access Disk
  poke j value d =
      if ltb (pfn * page_size + j) physical || leb d.allocated (pfn * page_size + j - physical)
      then overrun
      else ok (record d { bytes = store d.bytes (pfn * page_size + j - physical) value })

  -- `*(mmap_buf + j) = (char)j`, with the rounds left.
  unfoldable pub fill : (k j : ℕ) → Disk → Access Disk
  fill zero j d = ok d
  fill (suc k) j d = do d' ← poke j (j % 256) d; fill k (suc j) d'

-- The answers of the two opens and of remap_pfn_range, where the kernel maps, what `len` and the
-- block of malloc held before, and the two random numbers.
pub record Answers : Type 0 where
  pub first_open : Bool
  pub second_open : Bool
  pub remapped : Bool
  pub vm_start : ℕ
  pub uninitialised : Memory
  pub block : Memory
  pub random_index : ℕ
  pub random_value : ℕ

module _ (dev : Device) (a : Answers) (physical len : ℕ) where
  -- The end of the program, behind the second comparison.
  unfoldable at_end : Option Memory → Access Verdict
  at_end none = ok failure
  at_end (some read_buf) = ok success

  -- One byte is changed, and the device opened and compared again.
  unfoldable change : (pfn : ℕ) → Disk → Option Memory → Access Verdict
  unfolding at_end
  change pfn d none = ok failure
  change pfn d (some read_buf) =
      let j : ℕ = a.random_index % len in
      if len == 0 || j == 0 then ok killed else (do
        d' ← poke physical pfn j (a.random_value % j % 256) d
        if not a.second_open
            then ok failure
            else (do r ← read_and_compare dev d' read_buf (mmap_buf physical pfn d') len; at_end r))

  unfoldable after_mmap : Disk → Mapping → Access Verdict
  unfolding change
  after_mmap d (refused e) = ok failure
  after_mmap d (mapped pfn size) = do
    d' ← fill physical pfn len 0 d
    r ← read_and_compare dev d' a.block (mmap_buf physical pfn d') len
    change pfn d' r

-- The kernel maps `len` bytes, of which the driver sees the addresses.
unfoldable pub main : Device → UserAccess → Answers → (physical : ℕ) → Disk → Access Verdict
unfolding after_mmap
main dev u a physical d =
    let (answer, user') = mycdrv_unlocked_ioctl u d.ramdisk_size get_bufsize a.uninitialised in
    let len : ℕ = load64 user' in
    if not a.first_open || is_error answer
    then ok failure
    else after_mmap dev a physical len d (
        mycdrv_mmap d.ramdisk_size physical a.remapped
          (record { vm_start = a.vm_start; vm_end = a.vm_start + len; vm_pgoff = 0 }))
