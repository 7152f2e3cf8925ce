-- ===== src/UserPages/Unaligned.antt =====
-- lab_usermap_align-not-needed.c: mycdrv_rw for a buffer at any address.
pub mod Block
use linux_foundation_embedde.Base.{
  ℕ, zero, suc, ◌+◌, ◌-◌, ◌*◌, ◌/◌, ◌%◌, ◌^◌, ◌≤◌, ◌<◌, ◌≡◌, ◌⊎◌, inl, inr, Bool, true, Option,
  none, some, ltb, ◌==◌, if◌then◌else◌, to_int, add64, sub64, arith, refl, sym, ap, ◌∙◌,
}
use native.Mathlib.Decide.{dec_le}
use linux_foundation_embedde.UserPages.{
  page_size, pg_offset, pfn_of, Buffers, Outcome, returned, no_memory, fault, copy_page, in_ramdisk,
  ArePinned, copy_page-zero, copy_page-copy_page,
}

abbrev pub min : ℕ → ℕ → ℕ
min a b = if ltb a b then a else b

-- `npages`, an `int`, and the rounds of the loop: none where it is negative.
unfoldable pub npages : (buf lbuf : ℕ) → ℕ
unfolding pfn_of
npages buf lbuf = to_int (sub64 (pfn_of (add64 buf lbuf)) (pfn_of buf) + 1)

abbrev pub rounds : ℕ → ℕ
rounds n = if ltb n (2 ^ 31) then n else 0

-- `pages` is what get_user_pages left in the array: the number of the user's page behind each
-- entry. `offset` is pg_offset (buf).
module _ (rw' allocated : ℕ) (pages : ℕ → Option ℕ) where
  -- One round, with `first` for `j == 0`, hands on to the rest of the loop.
  unfoldable page_round :
      (offset j ktmp cur_len : ℕ) → Buffers → Option ℕ → ((nb : ℕ) → Buffers → Outcome) → Outcome
  page_round offset j ktmp cur_len b none rest = fault
  page_round offset j ktmp cur_len b (some page) rest =
      let start : ℕ = if j == 0 then offset else 0 in
      let nb = min (page_size - start) cur_len in
      if in_ramdisk allocated ktmp nb
      then rest nb (copy_page rw' (page * page_size + start) ktmp nb b)
      else fault

  -- The loop over the pages, with the rounds left.
  unfoldable pub rw_loop : (lbuf offset k j ktmp cur_len : ℕ) → Buffers → Outcome
  unfolding page_round
  rw_loop lbuf offset zero j ktmp cur_len b = returned lbuf b
  rw_loop lbuf offset (suc k) j ktmp cur_len b =
      page_round offset j ktmp cur_len b (pages j)
        (λ nb b'. rw_loop lbuf offset k (suc j) (ktmp + nb) (cur_len - nb) b')

-- `array_allocated` is the answer of kmalloc_array.
unfoldable pub mycdrv_rw :
    (array_allocated : Bool) (get_user_pages : (buf npages : ℕ) → ℕ → Option ℕ)
    → (rw' allocated buf lbuf : ℕ) → Buffers
    → Outcome
unfolding pg_offset npages
mycdrv_rw array_allocated get_user_pages rw' allocated buf lbuf b =
    let n = npages buf lbuf in
    if array_allocated
    then rw_loop rw' allocated (get_user_pages buf n) lbuf (pg_offset buf) (rounds n) 0 0 lbuf b
    else no_memory
