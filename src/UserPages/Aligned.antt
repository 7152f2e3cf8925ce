-- ===== src/UserPages/Aligned.antt =====
-- lab_usermap.c: mycdrv_rw for a buffer that starts with a page.
pub mod Fast
pub mod Programs
use linux_foundation_embedde.Base.{
  ℕ, zero, suc, ◌+◌, ◌-◌, ◌*◌, ◌/◌, ◌%◌, ◌^◌, ◌≤◌, ◌<◌, ◌≡◌, Bool, true, Option, none, some, ltb,
  ◌==◌, if◌then◌else◌, to_int, sub64, arith, sym, ap, ◌∙◌,
}
use native.Mathlib.Decide.{dec_le}
use linux_foundation_embedde.UserPages.{
  page_size, pfn_of, Buffers, Outcome, returned, no_memory, fault, copy_page, in_ramdisk, ArePinned,
  copy_page-zero, copy_page-copy_page,
}

-- `npages` is an `int`, `lbuf` a `size_t`.
unfoldable pub npages : (lbuf : ℕ) → ℕ
npages lbuf = to_int (sub64 lbuf 1 / page_size + 1)

abbrev pub rounds : ℕ → ℕ
rounds n = if ltb n (2 ^ 31) then n else 0

-- `nb`: the last page has the bytes that are left.
abbrev pub piece : (lbuf n j : ℕ) → ℕ
piece lbuf n j = if j + 1 == n then (lbuf - 1) % page_size + 1 else page_size

module _ (rw' allocated : ℕ) (pages : ℕ → Option ℕ) (lbuf n : ℕ) where
  page_round : (j ktmp : ℕ) → Buffers → Option ℕ → (Buffers → Outcome) → Outcome
  page_round j ktmp b none rest = fault
  page_round j ktmp b (some page) rest =
      if in_ramdisk allocated ktmp (piece lbuf n j)
      then rest (copy_page rw' (page * page_size) ktmp (piece lbuf n j) b)
      else fault

  -- The loop over the `n` pages, with the rounds left.
  unfoldable pub rw_loop : (k j ktmp : ℕ) → Buffers → Outcome
  unfolding page_round
  rw_loop zero j ktmp b = returned lbuf b
  rw_loop (suc k) j ktmp b =
      page_round j ktmp b (pages j) (λ b'. rw_loop k (suc j) (ktmp + page_size) b')

unfoldable pub mycdrv_rw :
    (array_allocated : Bool) (get_user_pages : (buf npages : ℕ) → ℕ → Option ℕ)
    → (rw' allocated buf lbuf : ℕ) → Buffers
    → Outcome
unfolding npages
mycdrv_rw array_allocated get_user_pages rw' allocated buf lbuf b =
    let n = npages lbuf in
    if array_allocated
    then rw_loop rw' allocated (get_user_pages buf n) lbuf n (rounds n) 0 0 b
    else no_memory

-- The handlers.
abbrev pub mycdrv_read :
    (array_allocated : Bool) (get_user_pages : (buf npages : ℕ) → ℕ → Option ℕ)
    → (allocated buf lbuf : ℕ) → Buffers
    → Outcome
mycdrv_read array_allocated get_user_pages allocated buf lbuf b =
    mycdrv_rw array_allocated get_user_pages 0 allocated buf lbuf b

abbrev pub mycdrv_write :
    (array_allocated : Bool) (get_user_pages : (buf npages : ℕ) → ℕ → Option ℕ)
    → (allocated buf lbuf : ℕ) → Buffers
    → Outcome
mycdrv_write array_allocated get_user_pages allocated buf lbuf b =
    mycdrv_rw array_allocated get_user_pages 1 allocated buf lbuf b

npages-eq : (lbuf : ℕ) → 0 < lbuf → lbuf < 2 ^ 31 → npages lbuf ≡ (lbuf - 1) / page_size + 1
unfolding npages
npages-eq lbuf pos small = ground arith

-- The piece of a round, and what is left behind it.
piece_lem :
    (lbuf n j k : ℕ)
    → 0 < lbuf
    → n ≡ (lbuf - 1) / page_size + 1
    → j + suc k ≡ n
    → (piece lbuf n j ≤ lbuf - j * page_size)
      × (piece lbuf n j + (lbuf - suc j * page_size) ≡ lbuf - j * page_size)
      × (j * page_size ≤ lbuf)
piece_lem lbuf n j k pos e h = ground arith

module _ (rw' allocated : ℕ) (pages : ℕ → Option ℕ) (buf lbuf n : ℕ) (pos : 0 < lbuf)
    (counted : n ≡ (lbuf - 1) / page_size + 1) (inside : lbuf ≤ allocated)
    (pinned : ArePinned pages buf n) where
  page_round-eq :
      (j k : ℕ) (b : Buffers) (rest : Buffers → Outcome)
      → j + suc k ≡ n
      → page_round rw' allocated pages lbuf n j (j * page_size) b (pages j) rest
        ≡ rest (
            copy_page rw'
              (pfn_of buf * page_size + j * page_size)
              (j * page_size)
              (piece lbuf n j)
              b)
  unfolding page_round
  page_round-eq j k b rest h =
      let e : (pfn_of buf + j) * page_size ≡ pfn_of buf * page_size + j * page_size = omega arith in
      rw (pinned j (omega arith), e) (ground (arith, piece_lem lbuf n j k pos counted h))

  pieces_join :
      (j k : ℕ) (b : Buffers)
      → j + suc k ≡ n
      → let a = pfn_of buf * page_size in
        let nb = piece lbuf n j in
        let left = lbuf - suc j * page_size in
        copy_page rw'
          (a + suc j * page_size)
          (suc j * page_size)
          left
          (copy_page rw' (a + j * page_size) (j * page_size) nb b)
        ≡ copy_page rw' (a + j * page_size) (j * page_size) (nb + left) b
  pieces_join j k b h = elim (dec_le lbuf (suc j * page_size)) [
    | yes p ↦
        let none_left : lbuf - suc j * page_size ≡ 0 = omega arith in
        rw (none_left, copy_page-zero)
          (ap
            (λ (m : ℕ). copy_page rw' (pfn_of buf * page_size + j * page_size) (j * page_size) m b)
            (omega arith))
    | no p ↦
        let full : piece lbuf n j ≡ page_size = ground arith in
        let next : suc j * page_size ≡ j * page_size + page_size = omega arith in
        let user_next : pfn_of buf * page_size + (j * page_size + page_size)
            ≡ pfn_of buf * page_size + j * page_size + page_size =
          omega arith in
        rw (full, next, user_next)
          (copy_page-copy_page rw' (pfn_of buf * page_size + j * page_size) (j * page_size)
            page_size _ b)
  ]

  rw_loop_lem :
      (k j : ℕ) (b : Buffers)
      → j + k ≡ n
      → rw_loop rw' allocated pages lbuf n k j (j * page_size) b
        ≡ returned lbuf (
            copy_page rw'
              (pfn_of buf * page_size + j * page_size)
              (j * page_size)
              (lbuf - j * page_size)
              b)
  unfolding rw_loop
  rw_loop_lem zero j b h = let e : lbuf - j * page_size ≡ 0 = omega arith in rw (e, copy_page-zero)
  rw_loop_lem (suc k) j b h =
      let a : ℕ = pfn_of buf * page_size in
      let nb : ℕ = piece lbuf n j in
      let next : suc j * page_size ≡ j * page_size + page_size = omega arith in
      let (_, whole, _) = piece_lem lbuf n j k pos counted h in
      page_round-eq j k b _ h
      ∙ rw (sym next) (
          rw_loop_lem k (suc j) (copy_page rw' (a + j * page_size) (j * page_size) nb b)
            (omega arith)
          ∙ ap (returned lbuf) (rw whole at (pieces_join j k b h)))

module _ (gup : (buf npages : ℕ) → ℕ → Option ℕ) (rw' allocated buf lbuf : ℕ) (b : Buffers)
    (small : lbuf < 2 ^ 31) where
  -- The loop is one block copy, between the start of the RAM disk and the start of the page in which
  -- the buffer begins, wherever in that page it begins: so a buffer has to begin with its page, as
  -- the driver takes it to. All pages were found, and the length is above 0 and not above the size
  -- of the RAM disk.
  pub block_at_page_start :
      0 < lbuf
      → ArePinned (gup buf (npages lbuf)) buf (npages lbuf)
      → lbuf ≤ allocated
      → mycdrv_rw true gup rw' allocated buf lbuf b
        ≡ returned lbuf (copy_page rw' (pfn_of buf * page_size) 0 lbuf b)
  unfolding mycdrv_rw
  block_at_page_start pos pinned inside =
      let counted = npages-eq lbuf pos small in
      let all : rounds (npages lbuf) ≡ npages lbuf = ground (arith, counted) in
      let a : pfn_of buf * page_size + 0 ≡ pfn_of buf * page_size = omega arith in
      rw all (
        rw_loop_lem rw' allocated (gup buf (npages lbuf)) buf lbuf (npages lbuf) pos counted inside
          pinned (npages lbuf) 0 b (omega arith)
        ∙ rw a (
            ap (λ (m : ℕ). returned lbuf (copy_page rw' (pfn_of buf * page_size) 0 m b))
              (omega arith)))
