-- ===== src/UserPages/Tests.antt =====
-- The theorems on the user's pages at concrete buffers.
use linux_foundation_embedde.Base.{
  ◌<◌, ℕ, ◌%◌, ◌==◌, ◌+◌, ◌*◌, ◌≤◌, ◌≡◌, true, Option, none, some, ltb, if◌then◌else◌, refl, arith,
}
use linux_foundation_embedde.Kernel.UserAccess.{zeros}
use linux_foundation_embedde.UserPages.{pfn_of, Buffers, returned, copy_page, page_size}
use linux_foundation_embedde.UserPages.Unaligned
use linux_foundation_embedde.UserPages.Unaligned.Block.{pages-eq-block}
use linux_foundation_embedde.UserPages.Aligned.Programs.{
  text, write_aligned, read_aligned, aligned_reads_back,
}
use linux_foundation_embedde.UserPages.Mmap
use linux_foundation_embedde.UserPages.MmapTest
use linux_foundation_embedde.UserPages.MmapTest.Agrees.{mmap_test_ends}
use linux_foundation_embedde.Device.{Device}
use linux_foundation_embedde.Device.Drivers.{generic_device}
use linux_foundation_embedde.CharDevice.{Disk, ok}
use linux_foundation_embedde.UserPages.Mmap.{mapped}
use linux_foundation_embedde.Kernel.FullAccess.{full_access, full_access-IsFull}

abbrev buffers : Buffers
buffers = record { user = zeros; ramdisk = λ i. i }

-- The user has the pages 1 to 3.
abbrev gup : ℕ → ℕ → ℕ → Option ℕ
gup buf npages j = if ltb j 3 then some (1 + j) else none

-- 5000 bytes at the address 5000 lie in the pages 1 and 2.
pages-eq-block_example :
    Unaligned.mycdrv_rw true gup 0 65536 5000 5000 buffers
    ≡ returned 5000 (copy_page 0 5000 0 5000 buffers)
unfolding Unaligned.npages pfn_of
pages-eq-block_example =
    pages-eq-block gup 0 65536 5000 5000 buffers (omega arith) (omega arith) (λ j h. ground arith)
      (omega arith)

-- A RAM disk of 16 pages at the physical page 7, of which the pages 3 and 4 are asked for.
abbrev two_pages : Mmap.VmArea
two_pages = record { vm_start = 20480; vm_end = 28672; vm_pgoff = 3 }

maps_two : Mmap.mycdrv_mmap 65536 28672 true two_pages ≡ mapped 10 8192
unfolding Mmap.mycdrv_mmap
maps_two = refl

mapped_inside_example : (28672 ≤ 10 * page_size) × (10 * page_size + 8192 ≤ 28672 + 65536)
mapped_inside_example = Mmap.mapped_inside 65536 28672 true two_pages (omega arith) maps_two

-- The generic device over a RAM disk of one page at page 7; byte 904 is changed.
abbrev mapped_device : Device
mapped_device = generic_device full_access full_access-IsFull

abbrev one_page : Disk
one_page = record { bytes = zeros; allocated = 4096; ramdisk_size = 4096 }

abbrev answers : MmapTest.Answers
answers = record {
  first_open = true;
  second_open = true;
  remapped = true;
  vm_start = 8192;
  uninitialised = zeros;
  block = zeros;
  random_index = 5000;
  random_value = 7;
}

mmap_test_ends_example :
    MmapTest.main mapped_device full_access answers 28672 one_page
    ≡ ok (if 5000 % 4096 == 0 then MmapTest.killed else MmapTest.success)
mmap_test_ends_example =
    mmap_test_ends mapped_device full_access answers 28672 one_page full_access-IsFull (omega arith)
      (omega arith) (omega arith) (omega arith) refl refl refl

-- Every page of the user can be had.
abbrev all_pages : ℕ → ℕ → ℕ → Option ℕ
all_pages buf npages j = some (pfn_of buf + j)

aligned_reads_back_example :
    (c : Buffers) × (d : Buffers) × (write_aligned true all_pages 65536 4096 buffers
      ≡ returned 28 c)
    × (read_aligned true all_pages 65536 1 8192 c ≡ returned 4096 d)
    × ((i : ℕ) → i < 4096 → d.user (8192 + i) ≡ (if ltb i 28 then text i else i))
aligned_reads_back_example =
    aligned_reads_back all_pages all_pages 65536 buffers 4096 8192 1
      (record { start = refl; pinned = λ j h. refl })
      (record { start = refl; pinned = λ j h. refl }) (omega arith) (omega arith) (omega arith)
