-- ===== src/UserPages.antt =====
-- The drivers of chapter_13_mem_user_and_kernel_space/todo that reach the user's buffer through its
-- pages: lab_usermap_align-not-needed.c, and lab_usermap.c, which lab_usermap_fast.c repeats with
-- get_user_pages_fast. What their functions share.
pub mod Unaligned
pub mod Aligned
pub mod Mmap
pub mod MmapTest
mod Tests
use linux_foundation_embedde.Base.{
  ℕ, ◌+◌, ◌*◌, ◌/◌, ◌%◌, ◌≤◌, ◌<◌, ◌≡◌, Bool, Option, some, leb, ◌==◌, ◌||◌, if◌then◌else◌, arith,
}
use linux_foundation_embedde.Kernel.UserAccess.{Memory, splice}
use linux_foundation_embedde.Kernel.Splice.{splice-zero, splice-splice}

abbrev pub page_size : ℕ
page_size = 4096

-- `addr & (PAGE_SIZE - 1)` and `addr >> PAGE_SHIFT`.
unfoldable pub pg_offset : ℕ → ℕ
pg_offset addr = addr % page_size

unfoldable pub pfn_of : ℕ → ℕ
pfn_of addr = addr / page_size

-- The user's memory, by its addresses, and the RAM disk.
pub record Buffers : Type 0 where
  pub user : Memory
  pub ramdisk : Memory

-- A return with what the two buffers hold then, -ENOMEM, or a use of a page pointer that was not
-- set or of memory outside of the RAM disk.
pub data Outcome : Type 0 where
  returned : ℕ → Buffers → Outcome
  no_memory : Outcome
  fault : Outcome

-- The memcpy of one page: `uaddr` is the user's address, `ktmp` the offset in the RAM disk.
unfoldable pub copy_page : (rw' uaddr ktmp nb : ℕ) → Buffers → Buffers
copy_page rw' uaddr ktmp nb b =
    if rw' == 0
    then record b { user = splice b.user uaddr b.ramdisk ktmp nb }
    else if rw' == 1
    then record b { ramdisk = splice b.ramdisk ktmp b.user uaddr nb }
    else b

-- The RAM disk has `allocated` bytes.
abbrev pub in_ramdisk : (allocated ktmp nb : ℕ) → Bool
in_ramdisk allocated ktmp nb = nb == 0 || leb (ktmp + nb) allocated

-- All pages that a loop of `npages` rounds uses are those of the user's memory from `buf` on.
abbrev pub ArePinned : (pages : ℕ → Option ℕ) → (buf npages : ℕ) → Type 0
ArePinned pages buf npages = (j : ℕ) → j < npages → pages j ≡ some (pfn_of buf + j)

pub copy_page-zero : (rw' uaddr ktmp : ℕ) (b : Buffers) → copy_page rw' uaddr ktmp 0 b ≡ b
unfolding copy_page
copy_page-zero rw' uaddr ktmp b =
    ground (arith, splice-zero b.user uaddr b.ramdisk ktmp, splice-zero b.ramdisk ktmp b.user uaddr)

-- Two pieces that follow one another are one.
pub copy_page-copy_page :
    (rw' uaddr ktmp n k : ℕ) (b : Buffers)
    → copy_page rw' (uaddr + n) (ktmp + n) k (copy_page rw' uaddr ktmp n b)
      ≡ copy_page rw' uaddr ktmp (n + k) b
unfolding copy_page
copy_page-copy_page rw' uaddr ktmp n k b = ground (
  arith,
  splice-splice b.user uaddr b.ramdisk ktmp n k,
  splice-splice b.ramdisk ktmp b.user uaddr n k,
)
