-- ===== src/UserPages/Mmap.antt =====
-- lab_mmap.c: the RAM disk is mapped into the user's memory, and an ioctl tells its size.
use linux_foundation_embedde.Base.{
  ℕ, ◌+◌, ◌-◌, ◌*◌, ◌/◌, ◌%◌, ◌^◌, ◌≤◌, ◌<◌, ◌≡◌, Bool, true, ltb, leb, ◌==◌, if◌then◌else◌, sub64,
  add64, arith, refl,
}
use linux_foundation_embedde.Kernel.UserAccess.{Memory, UserAccess, zeros}
use linux_foundation_embedde.Kernel.FullAccess.{to_full_bytes, IsFull}
use linux_foundation_embedde.Ioctl.{Return, returns, error}
use linux_foundation_embedde.Kernel.Words.{load32, store32, load32_ext}
use linux_foundation_embedde.UserPages.{page_size}

-- What the handler of mmap does: it maps `len` bytes from a page frame on, or refuses.
pub data Mapping : Type 0 where
  mapped : (pfn len : ℕ) → Mapping
  refused : (errno : ℕ) → Mapping

-- The fields of struct vm_area_struct that are used.
pub record VmArea : Type 0 where
  pub vm_start : ℕ
  pub vm_end : ℕ
  pub vm_pgoff : ℕ

-- `physical` is the address virt_to_phys (ramdisk), in the linear map of the kernel, and `remapped`
-- whether remap_pfn_range returned 0. -EINVAL is 22, -EAGAIN is 11.
unfoldable pub mycdrv_mmap : (ramdisk_size physical : ℕ) (remapped : Bool) → VmArea → Mapping
mycdrv_mmap ramdisk_size physical remapped vma =
    let offset : ℕ = vma.vm_pgoff * page_size % 2 ^ 64 in
    let len : ℕ = sub64 vma.vm_end vma.vm_start in
    if leb ramdisk_size offset
    then refused 22
    else if ltb (ramdisk_size - offset) len
    then refused 22
    else if remapped
    then mapped (add64 physical offset / page_size) len
    else refused 11

abbrev pub get_bufsize : ℕ
get_bufsize = 1

-- The eight bytes of the `unsigned long` tbs, the lowest first.
unfoldable pub bytes_of : ℕ → Memory
bytes_of tbs i =
    if ltb i 4 then store32 zeros (tbs % 2 ^ 32) i else store32 zeros (tbs / 2 ^ 32) (i - 4)

abbrev pub load64 : Memory → ℕ
load64 m = load32 m + 2 ^ 32 * load32 (λ i. m (4 + i))

-- -EFAULT is 14.
unfoldable pub mycdrv_unlocked_ioctl :
    UserAccess → (ramdisk_size cmd : ℕ) → Memory → Return × Memory
unfolding bytes_of
mycdrv_unlocked_ioctl u ramdisk_size cmd user =
    let (left, user') = u.copy_to_user user (bytes_of ramdisk_size) 0 8 in
    if cmd == get_bufsize
    then (if ltb 0 left then (error 14, user') else (returns 0, user'))
    else (error 22, user)

-- The RAM disk begins and ends with a page, as kmalloc gives it, below the end of the addresses.
pub record IsPaged (ramdisk_size physical : ℕ) : Type 0 where
  pub starts : physical % page_size ≡ 0
  pub ends : ramdisk_size % page_size ≡ 0
  pub below : physical + ramdisk_size < 2 ^ 64

-- Whatever the user asks for, what is mapped lies in the RAM disk: it begins at a page of it, and
-- ends no later than it.
pub mapped_inside :
    (ramdisk_size physical : ℕ) (remapped : Bool) (vma : VmArea)
    → IsPaged ramdisk_size physical
    → {pfn len : ℕ} → mycdrv_mmap ramdisk_size physical remapped vma ≡ mapped pfn len
    → (physical ≤ pfn * page_size) × (pfn * page_size + len ≤ physical + ramdisk_size)
unfolding mycdrv_mmap
mapped_inside ramdisk_size physical remapped vma paged e = ground arith

load64-bytes_of : (tbs : ℕ) → tbs < 2 ^ 64 → load64 (bytes_of tbs) ≡ tbs
unfolding bytes_of load32 store32
load64-bytes_of tbs h = omega arith

module _ (u : UserAccess) (full : IsFull u) (tbs : ℕ) (user : Memory) where
  abbrev user' : Memory
  user' = (u.copy_to_user user (bytes_of tbs) 0 8).1

  stored : (i : ℕ) → i < 8 → user' i ≡ bytes_of tbs i
  stored i h = ground (arith, to_full_bytes u full user (bytes_of tbs) 0 8 i)

  load64-stored : tbs < 2 ^ 64 → load64 user' ≡ tbs
  load64-stored h = omega (
    arith,
    load64-bytes_of tbs h,
    load32_ext user' (bytes_of tbs) (λ i k. stored i (omega arith)),
    load32_ext (λ i. user' (4 + i)) (λ i. bytes_of tbs (4 + i))
        (λ i k. stored (4 + i) (omega arith)),
  )

  ioctl-eq : mycdrv_unlocked_ioctl u tbs get_bufsize user ≡ (returns 0, user')
  unfolding mycdrv_unlocked_ioctl
  ioctl-eq = ground (arith, full.to_full user (bytes_of tbs) 0 8)

maps_whole :
    (ramdisk_size physical vm_start len : ℕ)
    → 0 < ramdisk_size
    → physical + ramdisk_size < 2 ^ 64
    → vm_start + ramdisk_size < 2 ^ 64
    → len ≡ ramdisk_size
    → mycdrv_mmap ramdisk_size physical true
        (record { vm_start = vm_start; vm_end = vm_start + len; vm_pgoff = 0 })
      ≡ mapped (physical / page_size) ramdisk_size
unfolding mycdrv_mmap
maps_whole ramdisk_size physical vm_start len pos below fits e = ground arith

-- The size that the ioctl stores in the user's memory is one that can be mapped: a mapping of as
-- many bytes from the start on is the whole RAM disk, whatever address it is at.
pub bufsize_maps_whole :
    (u : UserAccess) (ramdisk_size physical : ℕ) (user : Memory) (vm_start : ℕ)
    → IsFull u
    → IsPaged ramdisk_size physical
    → 0 < ramdisk_size
    → vm_start + ramdisk_size < 2 ^ 64
    → let (answer, user') = mycdrv_unlocked_ioctl u ramdisk_size get_bufsize user in
      (answer ≡ returns 0)
      × (load64 user' ≡ ramdisk_size)
      × (mycdrv_mmap ramdisk_size physical true
            (record { vm_start = vm_start; vm_end = vm_start + load64 user'; vm_pgoff = 0 })
          ≡ mapped (physical / page_size) ramdisk_size)
bufsize_maps_whole u ramdisk_size physical user vm_start full paged pos fits =
    let size = load64-stored u full ramdisk_size user (omega (arith, paged.below)) in
    rw (ioctl-eq u full ramdisk_size user)
      (refl, size, maps_whole ramdisk_size physical vm_start _ pos paged.below fits size)
