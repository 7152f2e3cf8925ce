-- ===== src/UserPages/Aligned/Fast.antt =====
-- lab_usermap_fast.c of chapter_13_mem_user_and_kernel_space/todo: the same functions, with the answers of
-- get_user_pages_fast, for which no lock is taken, in the place of get_user_pages.
use linux_foundation_embedde.Base.{ℕ, Bool, Option}
use linux_foundation_embedde.UserPages.{Buffers, Outcome}
use linux_foundation_embedde.UserPages.Aligned

abbrev pub mycdrv_rw :
    (array_allocated : Bool) (get_user_pages_fast : (buf npages : ℕ) → ℕ → Option ℕ)
    → (rw' allocated buf lbuf : ℕ) → Buffers
    → Outcome
mycdrv_rw = Aligned.mycdrv_rw

abbrev pub mycdrv_read :
    (array_allocated : Bool) (get_user_pages_fast : (buf npages : ℕ) → ℕ → Option ℕ)
    → (allocated buf lbuf : ℕ) → Buffers
    → Outcome
mycdrv_read = Aligned.mycdrv_read

abbrev pub mycdrv_write :
    (array_allocated : Bool) (get_user_pages_fast : (buf npages : ℕ) → ℕ → Option ℕ)
    → (allocated buf lbuf : ℕ) → Buffers
    → Outcome
mycdrv_write = Aligned.mycdrv_write
