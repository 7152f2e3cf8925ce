-- ===== src/Clock.antt =====
-- chapter_17_timing_measurements/lab_tsc.c: a program that looks up the clock rate in /proc/cpuinfo and measures a
-- sleep by the processor's counter of cycles. Numbers with a point are a parameter.
pub mod Search
pub mod Rate
mod Tests
use linux_foundation_embedde.Base.{
  ℕ, zero, suc, ◌+◌, ◌/◌, ◌≤◌, ◌<◌, ◌≡◌, Bool, true, false, Option, none, some, List, [], ◌∷◌, ltb,
  leb, ◌==◌, not, if◌then◌else◌, to_int, sub64,
}
use linux_foundation_embedde.Kernel.UserAccess.{Memory, splice}
use linux_foundation_embedde.CharDevice.{Access, ok, overrun}
use linux_foundation_embedde.Device.Files.{◌>>=◌}

-- BUFLEN, the size of the block that holds the text.
abbrev pub buflen : ℕ
buflen = 4096

-- atof: the number that the text from a position on begins with, and the position behind the last byte that it
-- looks at. Both depend on the bytes up to there only.
pub record Atof (A : Type 0) : Type 0 where
  pub number : Memory → ℕ → A
  pub looked : Memory → ℕ → ℕ
  pub same_number :
      (b b' : Memory) (pos : ℕ)
      → ((i : ℕ) → pos ≤ i → i < looked b pos → b i ≡ b' i)
      → number b pos ≡ number b' pos
  pub same_looked :
      (b b' : Memory) (pos : ℕ)
      → ((i : ℕ) → pos ≤ i → i < looked b pos → b i ≡ b' i)
      → looked b pos ≡ looked b' pos

-- The text "cpu MHz", and ':'.
abbrev pub cpu_mhz : List ℕ
cpu_mhz = 99 ∷ 112 ∷ 117 ∷ 32 ∷ 77 ∷ 72 ∷ 122 ∷ []

abbrev pub colon : ℕ
colon = 58

-- !strncmp (buf, word, strlen (word)) at the position `j` of the block: the bytes are compared up to the first one
-- that differs.
unfoldable pub begins : (word : List ℕ) → Memory → ℕ → Access Bool
begins [] b j = ok true
begins (c ∷ word) b j =
    let rest = begins word b (j + 1) in
    if ltb j buflen then (if b j == c then rest else ok false) else overrun

-- `while (*buf != ':') buf++;` with `left` bytes of the block from `j` on.
unfoldable pub skip_to_colon : (left : ℕ) → Memory → ℕ → Access ℕ
skip_to_colon zero b j = overrun
skip_to_colon (suc left) b j =
    let rest = skip_to_colon left b (j + 1) in if b j == colon then ok j else rest

module _ {A : Type 0} (atof : Atof A) where
  open atof use {number, looked}

  -- `buf++; speed = atof (buf);` behind the colon at `j`.
  unfoldable pub read_speed : Memory → ℕ → Access (Option A)
  read_speed b j = if leb (looked b (j + 1)) buflen then ok (some (number b (j + 1))) else overrun

  -- The loop, with `left` bytes of the block from `j` on; `none` is 0.0.
  unfoldable pub find_speed : (left : ℕ) → Memory → ℕ → Access (Option A)
  find_speed zero b j = ok none
  find_speed (suc left) b j =
      let rest = find_speed left b (j + 1) in
      let found = (do k ← skip_to_colon (suc left) b j; read_speed b k) in
      (do same ← begins cpu_mhz b j; if same then found else rest)

  -- `file` and `n` are what /proc/cpuinfo gave to the read, `n` is 0 where it failed; `malloced` is what the block held
  -- before. The outer `none` is the end of the program by DEATH.
  unfoldable pub getmhz :
      (opened : Bool) (n : ℕ) (file malloced : Memory) → Option (Access (Option A))
  getmhz opened n file malloced =
      if not opened
      then none
      else (if n == 0 then none else some (find_speed buflen (splice malloced 0 file 0 n) 0))

-- `diff = end - start` and `mhz = diff / 1000000` of main.
unfoldable pub elapsed : (start end : ℕ) → ℕ
elapsed start end = sub64 end start

unfoldable pub mhz : (diff : ℕ) → ℕ
mhz diff = to_int (diff / 1000000)
