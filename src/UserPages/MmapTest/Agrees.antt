-- ===== src/UserPages/MmapTest/Agrees.antt =====
-- lab_mmap_test.c finds that the mapping and the device agree.
use linux_foundation_embedde.Base.{
  ℕ, zero, suc, ◌+◌, ◌-◌, ◌*◌, ◌/◌, ◌%◌, ◌^◌, ◌≤◌, ◌<◌, ◌≡◌, true, ◌&&◌, some, ltb, leb, ◌==◌,
  if◌then◌else◌, arith, refl, ap, ◌∙◌, fun_ext,
}
use linux_foundation_embedde.Kernel.UserAccess.{Memory, UserAccess, splice}
use linux_foundation_embedde.Kernel.FullAccess.{IsFull}
use linux_foundation_embedde.CharDevice.{ok, Disk}
use linux_foundation_embedde.CharDevice.Bounds.{IsValid, room}
use linux_foundation_embedde.PutGet.{store}
use linux_foundation_embedde.Device.{Device}
use linux_foundation_embedde.UserPages.{page_size}
use linux_foundation_embedde.UserPages.Mmap.{mapped, IsPaged, bufsize_maps_whole}
use linux_foundation_embedde.UserPages.MmapTest.{
  success, killed, same, read_and_compare, mmap_buf, poke, fill, Answers, at_end, change,
  after_mmap, main,
}

same-eq : (a b : Memory) (len j : ℕ) → ((i : ℕ) → i < j + len → a i ≡ b i) → same a b len j ≡ true
unfolding same
same-eq a b zero j h = refl
same-eq a b (suc len) j h =
    ground (arith, h j (omega arith), same-eq a b len (suc j) (λ i k. h i (omega arith)))

-- Where the frames start with the disk, byte `j` of the mapping is byte `j` of the disk.
at_index : (physical pfn j : ℕ) → pfn * page_size ≡ physical → pfn * page_size + j - physical ≡ j
at_index physical pfn j e = omega arith

-- A mapping of the whole disk shows what is read from it.
read_and_compare_lem :
    (dev : Device) (d : Disk) (physical pfn : ℕ) (read_buf : Memory)
    → IsValid d
    → pfn * page_size ≡ physical
    → read_and_compare dev d read_buf (mmap_buf physical pfn d) d.ramdisk_size
      ≡ ok (some (splice read_buf 0 d.bytes 0 d.ramdisk_size))
unfolding read_and_compare
read_and_compare_lem dev d physical pfn read_buf v e =
    let size : ℕ = d.ramdisk_size in
    let whole : room size 0 size ≡ size = ground arith in
    let same_bytes : same (splice read_buf 0 d.bytes 0 size) (mmap_buf physical pfn d) size 0
        ≡ true =
      same-eq (splice read_buf 0 d.bytes 0 size) (mmap_buf physical pfn d) size 0
        (λ i h. ground (arith, ap d.bytes (at_index physical pfn i e))) in
    let small : d.ramdisk_size < 2 ^ 63 = omega (arith, v.small) in
    rw (dev.read_lem d v read_buf size 0 (omega arith) small, whole) (ground (arith, same_bytes))

poke_lem :
    (physical pfn j value : ℕ) (d : Disk)
    → pfn * page_size ≡ physical
    → j < d.allocated
    → poke physical pfn j value d ≡ ok (record d { bytes = store d.bytes j value })
unfolding poke
poke_lem physical pfn j value d e h = rw (at_index physical pfn j e) (ground arith)

filled : (k j : ℕ) → Memory → Memory
filled k j m i = if leb j i && ltb i (j + k) then i % 256 else m i

fill_lem :
    (physical pfn k j : ℕ) (d : Disk)
    → pfn * page_size ≡ physical
    → j + k ≤ d.allocated
    → fill physical pfn k j d ≡ ok (record d { bytes = filled k j d.bytes })
unfolding fill filled
fill_lem physical pfn zero j d e h =
    ap (λ (m : Memory). ok (record d { bytes = m })) (fun_ext λ i. ground arith)
fill_lem physical pfn (suc k) j d e h =
    let d' : Disk = record d { bytes = store d.bytes j (j % 256) } in
    rw (poke_lem physical pfn j (j % 256) d e (omega arith)) (
      fill_lem physical pfn k (suc j) d' e (omega arith)
      ∙ ap (λ (m : Memory). ok (record d { bytes = m })) (fun_ext λ i. ground arith))

module _ (dev : Device) (a : Answers) (physical : ℕ)
    (starts : physical / page_size * page_size ≡ physical) (opened : a.second_open ≡ true) where
  abbrev pfn : ℕ
  pfn = physical / page_size

  change_lem :
      (d : Disk) (read_buf : Memory)
      → IsValid d
      → 0 < d.ramdisk_size
      → change dev a physical d.ramdisk_size pfn d (some read_buf)
        ≡ ok (if a.random_index % d.ramdisk_size == 0 then killed else success)
  unfolding change at_end
  change_lem d read_buf v pos =
      let j : ℕ = a.random_index % d.ramdisk_size in
      let value : ℕ = a.random_value % j % 256 in
      let d' : Disk = record d { bytes = store d.bytes j value } in
      let poked = poke_lem physical pfn j value d starts (omega (arith, v.whole)) in
      let v' : IsValid d' = record { whole = v.whole; small = v.small } in
      let compared = read_and_compare_lem dev d' physical pfn read_buf v' starts in
      rw (poked, opened, compared) (ground arith)

  after_mmap_lem :
      (d : Disk)
      → IsValid d
      → 0 < d.ramdisk_size
      → after_mmap dev a physical d.ramdisk_size d (mapped pfn d.ramdisk_size)
        ≡ ok (if a.random_index % d.ramdisk_size == 0 then killed else success)
  unfolding after_mmap
  after_mmap_lem d v pos =
      let size : ℕ = d.ramdisk_size in
      let d' : Disk = record d { bytes = filled size 0 d.bytes } in
      let v' : IsValid d' = record { whole = v.whole; small = v.small } in
      rw
        (
          fill_lem physical pfn size 0 d starts (omega (arith, v.whole)),
          read_and_compare_lem dev d' physical pfn a.block v' starts,
        )
        (change_lem d' (splice a.block 0 d'.bytes 0 size) v' pos)

-- The program finds that the mapping and the device agree: with a RAM disk of whole pages, if the
-- opens and the mapping are granted, both comparisons succeed, through every driver that fills the
-- interface of Device, except that a random index of zero kills the program.
pub mmap_test_ends :
    (dev : Device) (u : UserAccess) (a : Answers) (physical : ℕ) (d : Disk)
    → IsFull u
    → IsValid d
    → IsPaged d.ramdisk_size physical
    → 0 < d.ramdisk_size
    → a.vm_start + d.ramdisk_size < 2 ^ 64
    → a.first_open ≡ true
    → a.second_open ≡ true
    → a.remapped ≡ true
    → main dev u a physical d
      ≡ ok (if a.random_index % d.ramdisk_size == 0 then killed else success)
unfolding main
mmap_test_ends dev u a physical d full v paged pos fits first second remapped =
    let (answer, size, maps) =
      bufsize_maps_whole u d.ramdisk_size physical a.uninitialised a.vm_start full paged pos fits in
    let starts : physical / page_size * page_size ≡ physical = omega (arith, paged.starts) in
    rw (answer, first, remapped, maps, size) (after_mmap_lem dev a physical starts second d v pos)
