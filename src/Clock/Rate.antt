-- ===== src/Clock/Rate.antt =====
-- What getmhz of lab_tsc.c returns, by the text of /proc/cpuinfo.
use linux_foundation_embedde.Base.{
  ℕ, ◌+◌, ◌-◌, ◌≤◌, ◌<◌, ◌≡◌, ◌≢◌, true, false, some, ◌==◌, refl, List, [], ◌∷◌, ◌∙◌, sym, length,
  arith, ap,
}
use linux_foundation_embedde.Kernel.UserAccess.{Memory, splice, splice_lem}
use linux_foundation_embedde.CharDevice.{ok, overrun}
use linux_foundation_embedde.Clock.{Atof, buflen, cpu_mhz, colon, read_speed, getmhz}
use linux_foundation_embedde.Clock.Search.{
  IsAt, skip_to_colon_lem, skip_past, after_word, find_first,
}

abbrev Agree : Memory → Memory → (from end : ℕ) → Type 0
Agree b b' from end = (i : ℕ) → from ≤ i → i < end → b i ≡ b' i

Agree-IsAt :
    (word : List ℕ) (b b' : Memory) (j end : ℕ)
    → Agree b b' 0 end
    → j + length word ≤ end
    → IsAt word b j
    → IsAt word b' j
Agree-IsAt [] b b' j end h fits at = tt
Agree-IsAt (c ∷ word) b b' j end h fits (e, at) =
    (sym (h j (omega arith) (omega arith)) ∙ e, Agree-IsAt word b b' (j + 1) end h (omega arith) at)

splice-Agree : (malloced file : Memory) (n : ℕ) → Agree file (splice malloced 0 file 0 n) 0 n
splice-Agree malloced file n i le lt =
    sym (splice_lem malloced 0 file n i lt) ∙ ap (splice malloced 0 file 0 n) (omega arith)

-- "cpu MHz" stands first at `p` in the `n` bytes of a text.
pub record IsFirst (file : Memory) (n p : ℕ) : Type 0 where
  pub at : IsAt cpu_mhz file p
  pub first : (i : ℕ) → i < p → ¬ IsAt cpu_mhz file i
  pub fits : p + length cpu_mhz ≤ n
  pub in_block : n ≤ buflen

-- The first colon of the text from `p` on is at `q`, and the number behind it ends in the text.
pub record IsRate {A : Type 0} (atof : Atof A) (file : Memory) (n p q : ℕ) : Type 0 where
  pub behind : p ≤ q
  pub inside : q < n
  pub at : file q ≡ colon
  pub first : (i : ℕ) → p ≤ i → i < q → file i ≢ colon
  pub ends : atof.looked file (q + 1) ≤ n

module _ {A : Type 0} (atof : Atof A) (file malloced : Memory) (n p : ℕ)
    (text : IsFirst file n p) where
  getmhz-after_word :
      getmhz atof true n file malloced
      ≡ some (after_word atof (buflen - p) (splice malloced 0 file 0 n) p)
  unfolding getmhz
  getmhz-after_word =
      let block = splice malloced 0 file 0 n in
      let agree = splice-Agree malloced file n in
      let at = Agree-IsAt cpu_mhz file block p n agree text.fits text.at in
      let first : (i : ℕ) → i < p → ¬ IsAt cpu_mhz block i = λ i lt here. text.first i lt (
        Agree-IsAt cpu_mhz block file i n (λ k l m. sym (agree k l m)) (omega (arith, text.fits))
          here) in
      let search =
        find_first atof buflen block 0 p (omega arith) (omega (arith, text.fits, text.in_block))
          (omega arith) at first in
      let some_text : (n == 0) ≡ false = ground (arith, text.fits) in rw (some_text, search) refl

  -- If the file could be opened and the text that was read from it, which fits the block, has "cpu MHz", behind it a
  -- colon, and behind the first one a number that ends in the text, then getmhz returns that number, whatever the block
  -- held before.
  pub getmhz_reads_rate :
      (q : ℕ)
      → IsRate atof file n p q
      → getmhz atof true n file malloced ≡ some (ok (some (atof.number file (q + 1))))
  unfolding after_word read_speed
  getmhz_reads_rate q rate =
      let block = splice malloced 0 file 0 n in
      let agree = splice-Agree malloced file n in
      let local : (i : ℕ) → q + 1 ≤ i → i < atof.looked file (q + 1) → file i ≡ block i =
        λ i l m. agree i (omega arith) (omega (arith, rate.ends)) in
      let found =
        skip_to_colon_lem (buflen - p) block p q rate.behind
          (omega (arith, text.in_block, rate.inside))
          (sym (agree q (omega arith) rate.inside) ∙ rate.at)
          (λ i l m.
            rw (sym (agree i (omega arith) (omega (arith, rate.inside)))) (rate.first i l m)) in
      let looks = sym (atof.same_looked file block (q + 1) local) in
      getmhz-after_word
      ∙ rw (found, looks, sym (atof.same_number file block (q + 1) local))
          (ground (arith, rate.ends, text.in_block))

  -- If the text fills the block and has no colon behind "cpu MHz", then getmhz runs over the end of the block.
  getmhz_overruns :
      n ≡ buflen
      → ((i : ℕ) → p ≤ i → i < n → file i ≢ colon)
      → getmhz atof true n file malloced ≡ some overrun
  unfolding after_word
  getmhz_overruns full h =
      let agree = splice-Agree malloced file n in
      getmhz-after_word
      ∙ rw
          (skip_past (buflen - p) (splice malloced 0 file 0 n) p λ i l m.
            let in_text : i < n = omega (arith, text.fits) in
            rw (sym (agree i (omega arith) in_text)) (h i l in_text))
          refl
