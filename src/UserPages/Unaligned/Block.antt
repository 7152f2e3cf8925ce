-- ===== src/UserPages/Unaligned/Block.antt =====
-- lab_usermap_align-not-needed.c: the loop over the pages is one block copy.
use linux_foundation_embedde.Base.{
  ℕ, zero, suc, ◌+◌, ◌-◌, ◌*◌, ◌/◌, ◌%◌, ◌^◌, ◌≤◌, ◌<◌, ◌≡◌, ◌⊎◌, inl, inr, true, Option, none,
  some, ◌==◌, if◌then◌else◌, arith, refl, sym, ap, ◌∙◌,
}
use native.Mathlib.Decide.{dec_le}
use linux_foundation_embedde.UserPages.{
  page_size, pg_offset, pfn_of, Buffers, Outcome, returned, fault, copy_page, ArePinned,
  copy_page-zero, copy_page-copy_page,
}
use linux_foundation_embedde.UserPages.Unaligned.{
  min, npages, rounds, page_round, rw_loop, mycdrv_rw,
}

module _ (rw' allocated : ℕ) (pages : ℕ → Option ℕ) where
  page_round-eq :
      (offset j ktmp cur_len page : ℕ) (b : Buffers) (rest : (nb : ℕ) → Buffers → Outcome)
      → 0 < j
      → ktmp + cur_len ≤ allocated
      → page_round rw' allocated pages offset j ktmp cur_len b (some page) rest
        ≡ rest
            (min page_size cur_len)
            (copy_page rw' (page * page_size) ktmp (min page_size cur_len) b)
  unfolding page_round
  page_round-eq offset j ktmp cur_len page b rest pos inside =
      let e : page * page_size + 0 ≡ page * page_size = omega arith in
      ground (arith, ap (λ (u : ℕ). copy_page rw' u ktmp (min page_size cur_len) b) e)

-- The piece of a page, where nothing is left or the page's start is reached.
page_start :
    (rw' ktmp cur_len a page : ℕ) (b : Buffers)
    → (cur_len ≡ 0) ⊎ (a ≡ page)
    → copy_page rw' page ktmp (min page_size cur_len) b
      ≡ copy_page rw' a ktmp (min page_size cur_len) b
page_start rw' ktmp cur_len a page b (inl e) =
    rw e (copy_page-zero rw' page ktmp b ∙ sym (copy_page-zero rw' a ktmp b))
page_start rw' ktmp cur_len a page b (inr e) = rw e

next_start :
    (cur_len a page j : ℕ)
    → (cur_len ≡ 0) ⊎ (a ≡ (page + j) * page_size)
    → (cur_len - min page_size cur_len ≡ 0)
      ⊎ (a + min page_size cur_len ≡ (page + suc j) * page_size)
next_start cur_len a page j start = elim (dec_le cur_len page_size) [
  | yes p ↦ inl (ground arith)
  | no p ↦ inr (ground arith)
]

module _ (rw' allocated : ℕ) (pages : ℕ → Option ℕ) (lbuf offset buf : ℕ) where
  -- From the second page on: the rest of the buffer is either empty or starts at the page's start.
  later_pages :
      (k j ktmp cur_len a : ℕ) (b : Buffers)
      → 0 < j
      → ArePinned pages buf (j + k)
      → cur_len ≤ k * page_size
      → ktmp + cur_len ≤ allocated
      → (cur_len ≡ 0) ⊎ (a ≡ (pfn_of buf + j) * page_size)
      → rw_loop rw' allocated pages lbuf offset k j ktmp cur_len b
        ≡ returned lbuf (copy_page rw' a ktmp cur_len b)
  unfolding rw_loop
  later_pages zero j ktmp cur_len a b pos pinned fits inside start =
      let e : cur_len ≡ 0 = omega arith in rw (e, copy_page-zero rw' a ktmp b)
  later_pages (suc k) j ktmp cur_len a b pos pinned fits inside start =
      rw
        (
          pinned j (omega arith),
          page_round-eq rw' allocated pages offset j ktmp cur_len (pfn_of buf + j) b _ pos inside,
          page_start rw' ktmp cur_len a ((pfn_of buf + j) * page_size) b start,
        )
        (later_pages k (suc j) (ktmp + nb) (cur_len - nb) (a + nb) (copy_page rw' a ktmp nb b)
            (omega arith) (λ i h. pinned i (omega arith)) (ground arith) (ground arith)
            (next_start cur_len a (pfn_of buf) j start)
          ∙ ap (returned lbuf) (
              copy_page-copy_page rw' a ktmp nb (cur_len - nb) b
              ∙ ap (λ (n : ℕ). copy_page rw' a ktmp n b) (ground arith)))
    where
      nb : ℕ
      nb = min page_size cur_len

npages-eq :
    (buf lbuf : ℕ)
    → buf + lbuf < 2 ^ 64
    → lbuf < 2 ^ 31
    → rounds (npages buf lbuf) ≡ suc (pfn_of (buf + lbuf) - pfn_of buf)
unfolding npages
npages-eq buf lbuf fits small = ground arith

-- The first page: the piece starts at the buffer's address and ends at the page's or the buffer's.
first_page :
    (rw' allocated : ℕ) (pages : ℕ → Option ℕ) (buf lbuf : ℕ) (b : Buffers)
    (rest : (nb : ℕ) → Buffers → Outcome)
    → lbuf ≤ allocated
    → let nb = min (page_size - pg_offset buf) lbuf in
      page_round rw' allocated pages (pg_offset buf) 0 0 lbuf b (some (pfn_of buf)) rest
      ≡ rest nb (copy_page rw' buf 0 nb b)
unfolding page_round pg_offset pfn_of
first_page rw' allocated pages buf lbuf b rest inside =
    let nb : ℕ = min (page_size - buf % page_size) lbuf in
    let e : buf / page_size * page_size + buf % page_size ≡ buf = omega arith in
    ground (arith, ap (λ (u : ℕ). copy_page rw' u 0 nb b) e)

-- Where the second page starts, and how many pages the rest of the buffer can take.
second_page :
    (buf lbuf : ℕ)
    → let nb = min (page_size - pg_offset buf) lbuf in
      (lbuf - nb ≤ (pfn_of (buf + lbuf) - pfn_of buf) * page_size)
      × ((lbuf - nb ≡ 0) ⊎ (buf + nb ≡ (pfn_of buf + 1) * page_size))
unfolding pfn_of pg_offset
second_page buf lbuf = (
  ground arith,
  elim (dec_le lbuf (page_size - buf % page_size)) [
    | yes p ↦ inl (ground arith)
    | no p ↦ inr (ground arith)
  ],
)

module _ (gup : (buf npages : ℕ) → ℕ → Option ℕ) (rw' allocated buf lbuf : ℕ) (b : Buffers)
    (fits : buf + lbuf < 2 ^ 64) (small : lbuf < 2 ^ 31) where
  -- For a buffer at any address the loop over the pages is one block copy: if all pages were found
  -- and the length is not above the size of the RAM disk, a read stores the first `lbuf` bytes of
  -- the RAM disk at the buffer's address, a write stores the user's bytes at the start of the RAM
  -- disk, and both return `lbuf`.
  pub pages-eq-block :
      ArePinned (gup buf (npages buf lbuf)) buf (rounds (npages buf lbuf))
      → lbuf ≤ allocated
      → mycdrv_rw true gup rw' allocated buf lbuf b ≡ returned lbuf (copy_page rw' buf 0 lbuf b)
  unfolding mycdrv_rw rw_loop
  pages-eq-block pinned inside =
      let all : ArePinned pages buf (suc k) = rw (npages-eq buf lbuf fits small) at pinned in
      let e : pages 0 ≡ some (pfn_of buf) = all 0 (omega arith) ∙ ap some (omega arith) in
      let (enough, start) = second_page buf lbuf in
      rw (npages-eq buf lbuf fits small, e, first_page rw' allocated pages buf lbuf b _ inside)
        (later_pages rw' allocated pages lbuf (pg_offset buf) buf k 1 (0 + nb) (lbuf - nb)
            (buf + nb) (copy_page rw' buf 0 nb b) (omega arith) (λ i h. all i (omega arith)) enough
            (ground arith) start
          ∙ ap (returned lbuf) (
              copy_page-copy_page rw' buf 0 nb (lbuf - nb) b
              ∙ ap (λ (n : ℕ). copy_page rw' buf 0 n b) (ground arith)))
    where
      pages : ℕ → Option ℕ
      pages = gup buf (npages buf lbuf)

      k : ℕ
      k = pfn_of (buf + lbuf) - pfn_of buf

      nb : ℕ
      nb = min (page_size - pg_offset buf) lbuf

page_round-fault :
    (rw' allocated : ℕ) (pages : ℕ → Option ℕ) (offset j ktmp cur_len : ℕ) (b : Buffers)
    (page : Option ℕ) (rest : (nb : ℕ) → Buffers → Outcome)
    → ((nb : ℕ) (b' : Buffers) → rest nb b' ≡ fault)
    → page_round rw' allocated pages offset j ktmp cur_len b page rest ≡ fault
unfolding page_round
page_round-fault rw' allocated pages offset j ktmp cur_len b none rest h = refl
page_round-fault rw' allocated pages offset j ktmp cur_len b (some page) rest h =
    let start : ℕ = if j == 0 then offset else 0 in
    let nb : ℕ = min (page_size - start) cur_len in
    ground (arith, h nb (copy_page rw' (page * page_size + start) ktmp nb b))

-- Whichever page was not found, the loop comes to it, or to a fault before it.
missing_page :
    (rw' allocated : ℕ) (pages : ℕ → Option ℕ) (lbuf offset k j ktmp cur_len i : ℕ) (b : Buffers)
    → i < k
    → pages (j + i) ≡ none
    → rw_loop rw' allocated pages lbuf offset k j ktmp cur_len b ≡ fault
unfolding rw_loop
missing_page rw' allocated pages lbuf offset zero j ktmp cur_len i b h e = absurd (omega arith)
missing_page rw' allocated pages lbuf offset (suc k) j ktmp cur_len zero b h e =
    let e' : pages j ≡ none = ap pages (omega arith) ∙ e in rw e' (unfold page_round in refl)
missing_page rw' allocated pages lbuf offset (suc k) j ktmp cur_len (suc i) b h e =
    page_round-fault rw' allocated pages offset j ktmp cur_len b (pages j) _ (λ nb b'.
      missing_page rw' allocated pages lbuf offset k (suc j) (ktmp + nb) (cur_len - nb) i b'
        (omega arith) (ap pages (omega arith) ∙ e))

module _ (gup : (buf npages : ℕ) → ℕ → Option ℕ) (rw' allocated buf lbuf : ℕ) (b : Buffers)
    (fits : buf + lbuf < 2 ^ 64) (small : lbuf < 2 ^ 31) where
  -- The loop uses the page of the address behind the buffer's last byte, also where the buffer ends
  -- with a page and that one is not its own: if get_user_pages did not find it, the loop uses an
  -- entry of the array that was not set, or faults before, whatever the length and the direction.
  page_behind_faults :
      gup buf (npages buf lbuf) (pfn_of (buf + lbuf) - pfn_of buf) ≡ none
      → mycdrv_rw true gup rw' allocated buf lbuf b ≡ fault
  unfolding mycdrv_rw
  page_behind_faults behind =
      missing_page rw' allocated (gup buf (npages buf lbuf)) lbuf (pg_offset buf)
        (rounds (npages buf lbuf)) 0 0 lbuf (pfn_of (buf + lbuf) - pfn_of buf) b
        (rw (npages-eq buf lbuf fits small) (omega arith))
        (ap (gup buf (npages buf lbuf)) (omega arith) ∙ behind)
