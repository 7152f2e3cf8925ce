-- ===== src/UserPages/Aligned/Programs.antt =====
-- The programs lab_write_aligned.c and lab_read_aligned.c of chapter_13_mem_user_and_kernel_space/todo, which
-- give the driver buffers that start with a page. posix_memalign chooses where.
use linux_foundation_embedde.Base.{
  ℕ, ◌+◌, ◌*◌, ◌%◌, ◌^◌, ◌≤◌, ◌<◌, ◌≡◌, Bool, true, Option, [], ◌∷◌, List, ltb, if◌then◌else◌,
  arith, ◌∙◌,
}
use linux_foundation_embedde.Kernel.UserAccess.{Memory, splice, splice_lem}
use linux_foundation_embedde.Kernel.Words.{put}
use linux_foundation_embedde.UserPages.{
  page_size, pfn_of, Buffers, Outcome, returned, copy_page, ArePinned,
}
use linux_foundation_embedde.UserPages.Aligned.{
  npages, mycdrv_read, mycdrv_write, block_at_page_start,
}

-- STRING, with its end.
abbrev string : List ℕ
string =
    b'T' ∷ b'E' ∷ b'S' ∷ b'T' ∷ b'I' ∷ b'N' ∷ b'G' ∷ b' ' ∷ b'D' ∷ b'R' ∷ b'I' ∷ b'V' ∷ b'E' ∷ b'R'
    ∷ b' ' ∷ b'W' ∷ b'I' ∷ b'T' ∷ b'H' ∷ b' ' ∷ b'A' ∷ b' ' ∷ b'W' ∷ b'R' ∷ b'I' ∷ b'T' ∷ b'E' ∷ 0
    ∷ []

unfoldable pub text : Memory
text = put (λ _. 0) 0 string

-- `strlen(STRING) + 1`
abbrev pub text_size : ℕ
text_size = 28

-- strcpy (buffer, STRING)
abbrev pub strcpy : (buffer : ℕ) → Buffers → Buffers
strcpy buffer b = record b { user = splice b.user buffer text 0 text_size }

module _ (array_allocated : Bool) (get_user_pages : (buf npages : ℕ) → ℕ → Option ℕ)
    (allocated : ℕ) where
  unfoldable pub write_aligned : (buffer : ℕ) → Buffers → Outcome
  write_aligned buffer b =
      mycdrv_write array_allocated get_user_pages allocated buffer text_size (strcpy buffer b)

  -- `pages` is the number that the program was started with, or 1.
  unfoldable pub read_aligned : (pages buffer : ℕ) → Buffers → Outcome
  read_aligned pages buffer b =
      mycdrv_read array_allocated get_user_pages allocated buffer (pages * page_size) b

-- A buffer that starts with a page, all pages of which the driver gets.
pub record IsAligned (get_user_pages : (buf npages : ℕ) → ℕ → Option ℕ) (buffer lbuf : ℕ)
    : Type 0 where
  pub start : buffer % page_size ≡ 0
  pub pinned : ArePinned (get_user_pages buffer (npages lbuf)) buffer (npages lbuf)

pfn_of-start : (addr : ℕ) → addr % page_size ≡ 0 → pfn_of addr * page_size ≡ addr
unfolding pfn_of
pfn_of-start addr h = omega arith

-- The bytes of the text on the RAM disk.
written_bytes :
    (written i : ℕ) (b : Buffers)
    → (copy_page 1 written 0 text_size (strcpy written b)).ramdisk i
      ≡ (if ltb i text_size then text i else b.ramdisk i)
unfolding copy_page
written_bytes written i b = ground (arith, splice_lem b.user written text text_size i)

read_bytes :
    (read n i : ℕ) (b : Buffers) → i < n → (copy_page 0 read 0 n b).user (read + i) ≡ b.ramdisk i
unfolding copy_page
read_bytes read n i b h = splice_lem b.user read b.ramdisk n i h

module _ (gup gup' : (buf npages : ℕ) → ℕ → Option ℕ) (allocated : ℕ) (b : Buffers) where
  -- What the program that reads has in its buffer after the other one has written: the text, with its end, and
  -- then what was on the RAM disk before. Both calls return the length asked for. Both buffers start with a page,
  -- and the pages read are on the RAM disk.
  pub aligned_reads_back :
      (written read pages : ℕ)
      → IsAligned gup written text_size
      → IsAligned gup' read (pages * page_size)
      → 0 < pages
      → pages * page_size ≤ allocated
      → pages * page_size < 2 ^ 31
      → (c : Buffers) × (d : Buffers) × (write_aligned true gup allocated written b
          ≡ returned text_size c)
        × (read_aligned true gup' allocated pages read c ≡ returned (pages * page_size) d)
        × ((i : ℕ)
            → i < pages * page_size
            → d.user (read + i) ≡ (if ltb i text_size then text i else b.ramdisk i))
  unfolding write_aligned read_aligned
  aligned_reads_back written read pages w r pos inside small =
      let c : Buffers = copy_page 1 (pfn_of written * page_size) 0 text_size (strcpy written b) in
      let d : Buffers = copy_page 0 (pfn_of read * page_size) 0 (pages * page_size) c in
      (
        c,
        d,
        block_at_page_start gup 1 allocated written text_size (strcpy written b) (omega arith)
            (omega arith) w.pinned (omega arith),
        block_at_page_start gup' 0 allocated read (pages * page_size) c small (omega arith) r.pinned
            inside,
        λ i h.
            rw (pfn_of-start written w.start, pfn_of-start read r.start)
              (read_bytes read (pages * page_size) i _ h ∙ written_bytes written i b),
      )
