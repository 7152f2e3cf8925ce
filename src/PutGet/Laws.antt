-- ===== src/PutGet/Laws.antt =====
-- The byte loops of put_and_get_driver.c against the block copies of the generic device.
use linux_foundation_embedde.Base.{
  ℕ, zero, suc, ◌+◌, ◌-◌, ◌^◌, ◌≤◌, ◌<◌, Bool, inl, inr, Bool-cases, ltb, leb, ◌==◌, if◌then◌else◌,
  ◌≡◌, arith, ap, ◌∙◌, sym, ◌&&◌, fun_ext,
}
use native.Mathlib.Decide.{dec_lt}
use linux_foundation_embedde.Kernel.UserAccess.{Memory, UserAccess, splice}
use linux_foundation_embedde.CharDevice.{ok, Disk, bytes_to_do, mycdrv_generic_read}
use linux_foundation_embedde.CharDevice.Bounds.{IsValid, room, bytes_to_do-room, read-eq}
use linux_foundation_embedde.PutGet.{
  store, rounds, put_loop, get_loop, advance, mycdrv_read, mycdrv_write,
}

-- The addresses from the `i`-th on that can be accessed before one faults, among `n`.
unfoldable pub accessible : (ℕ → Bool) → ℕ → ℕ → ℕ
accessible faults i zero = 0
accessible faults i (suc n) =
    let rest = suc (accessible faults (suc i) n) in if faults i then 0 else rest

pub accessible-le : (faults : ℕ → Bool) (i n : ℕ) → accessible faults i n ≤ n
unfolding accessible
accessible-le faults i zero = omega arith
accessible-le faults i (suc n) = ground (arith, accessible-le faults (suc i) n)

-- A block that starts with one more byte.
splice-store :
    (m : Memory) (target : ℕ) (from : Memory) (source n i : ℕ)
    → splice (store m target (from source)) (suc target) from (suc source) n i
      ≡ splice m target from source (suc n) i
splice-store m target from source n i = elim (dec_lt target i) [
  | yes p ↦
      let e : suc source + (i - suc target) ≡ source + (i - target) = omega arith in
      ground (arith, ap from e)
  | no p ↦ let e : source + (i - target) ≡ source = omega arith in ground (arith, ap from e)
]

put_loop_lem :
    (faults : ℕ → Bool) (d : Disk) (k tmp nbytes : ℕ) (buf : Memory)
    → tmp + k ≤ d.allocated
    → (m : Memory) × (put_loop faults d k tmp nbytes buf
        ≡ ok (nbytes + accessible faults nbytes k, m))
      × ((i : ℕ) → m i ≡ splice buf nbytes d.bytes tmp (accessible faults nbytes k) i)
unfolding put_loop accessible
put_loop_lem faults d zero tmp nbytes buf h = (buf, ground arith, λ i. ground arith)
put_loop_lem faults d (suc k) tmp nbytes buf h =
    let (m, e, b) =
      put_loop_lem faults d k (suc tmp) (suc nbytes) (store buf nbytes (d.bytes tmp))
        (omega arith) in
    elim (Bool-cases (faults nbytes)) [
      | inl bad ↦ (buf, ground arith, λ i. ground arith)
      | inr good ↦ (m, ground arith, λ i. b i ∙ rw good (splice-store buf nbytes d.bytes tmp _ i))
    ]

-- The disk after get_user stored `n` bytes from `tmp` on and, if `n` is below `k`, failed once.
abbrev pub fetched : Memory → (tmp : ℕ) → Memory → (nbytes n k : ℕ) → Memory
fetched disk tmp buf nbytes n k i =
    if leb tmp i && ltb i (tmp + n)
    then buf (nbytes + (i - tmp))
    else if ltb n k && i == tmp + n
    then 0
    else disk i

fetched-store :
    (disk : Memory) (tmp : ℕ) (buf : Memory) (nbytes n k i : ℕ)
    → fetched (store disk tmp (buf nbytes)) (suc tmp) buf (suc nbytes) n k i
      ≡ fetched disk tmp buf nbytes (suc n) (suc k) i
fetched-store disk tmp buf nbytes n k i = elim (dec_lt tmp i) [
  | yes p ↦
      let e : suc nbytes + (i - suc tmp) ≡ nbytes + (i - tmp) = omega arith in
      ground (arith, ap buf e)
  | no p ↦ let e : nbytes + (i - tmp) ≡ nbytes = omega arith in ground (arith, ap buf e)
]

get_loop_lem :
    (faults : ℕ → Bool) (allocated k tmp nbytes : ℕ) (buf disk : Memory)
    → tmp + k ≤ allocated
    → let n = accessible faults nbytes k in
      (m : Memory) × (get_loop faults allocated k tmp nbytes buf disk ≡ ok (nbytes + n, m))
      × ((i : ℕ) → m i ≡ fetched disk tmp buf nbytes n k i)
unfolding get_loop accessible
get_loop_lem faults allocated zero tmp nbytes buf disk h = (disk, ground arith, λ i. ground arith)
get_loop_lem faults allocated (suc k) tmp nbytes buf disk h =
    let (m, e, b) =
      get_loop_lem faults allocated k (suc tmp) (suc nbytes) buf (store disk tmp (buf nbytes))
        (omega arith) in
    elim (Bool-cases (faults nbytes)) [
      | inl bad ↦ (store disk tmp 0, ground arith, λ i. rw bad (ground arith))
      | inr good ↦ (m, ground arith, λ i. b i ∙ rw good (fetched-store disk tmp buf nbytes _ k i))
    ]

advance_lem :
    (n pos : ℕ) (m : Memory)
    → n < 2 ^ 31
    → pos < 2 ^ 31
    → advance pos (ok (0 + n, m)) ≡ ok (record { nbytes = n; pos = pos + n; bytes = m })
unfolding advance
advance_lem n pos m a b = ground arith

module _ (faults : ℕ → Bool) {d : Disk} (v : IsValid d) (buf : Memory) (lbuf pos : ℕ)
    (inside : pos ≤ d.ramdisk_size) (fits : lbuf < 2 ^ 63) where
  abbrev asked : ℕ
  asked = room d.ramdisk_size pos lbuf

  abbrev moved : ℕ
  moved = accessible faults 0 asked

  rounds-eq : rounds (bytes_to_do d.ramdisk_size pos lbuf) ≡ asked
  rounds-eq = rw (bytes_to_do-room d.ramdisk_size pos lbuf v.small inside fits) (ground arith)

  small_move : moved < 2 ^ 31
  small_move = ground (arith, accessible-le faults 0 asked)

  -- From a position inside the disk the read succeeds. It returns how many of the user's addresses
  -- can be accessed before one faults, of the length asked for cut at the end of the disk, moves the
  -- position by that, and stores as many bytes of the disk in the user's buffer.
  pub put_read_inside :
      (m : Memory) × (mycdrv_read faults d buf lbuf pos
        ≡ ok (record { nbytes = moved; pos = pos + moved; bytes = m }))
      × ((i : ℕ) → m i ≡ splice buf 0 d.bytes pos moved i)
  unfolding mycdrv_read
  put_read_inside =
      let (m, e, b) = put_loop_lem faults d asked pos 0 buf (ground arith) in
      (m, rw (rounds-eq, e) (advance_lem moved pos m small_move (ground arith)), b)

  -- From a position inside the disk the write succeeds and moves as many bytes as the user's
  -- addresses allow. Of the disk it changes those bytes, and the one after them, set to 0, if an
  -- address faulted.
  pub get_write_inside :
      (m : Memory) × (mycdrv_write faults d buf lbuf pos
        ≡ ok (record { nbytes = moved; pos = pos + moved; bytes = m }))
      × ((i : ℕ) → m i ≡ fetched d.bytes pos buf 0 moved asked i)
  unfolding mycdrv_write
  get_write_inside =
      let (m, e, b) = get_loop_lem faults d.allocated asked pos 0 buf d.bytes (ground arith) in
      (m, rw (rounds-eq, e) (advance_lem moved pos m small_move (ground arith)), b)

  -- Inside the disk the loop of put_user is the block copy: with a copy_to_user that stops at the
  -- address which faults, the read returns the same value, position and user's buffer as the
  -- generic read.
  pub put_read-eq-generic_read :
      (u : UserAccess)
      → ((to from : Memory) (offset n : ℕ)
          → (u.copy_to_user to from offset n).0 + accessible faults 0 n ≡ n)
      → mycdrv_read faults d buf lbuf pos ≡ mycdrv_generic_read u d buf lbuf pos
  put_read-eq-generic_read u stops =
      let (m, e, b) = put_read_inside in
      let s : asked - (u.copy_to_user buf d.bytes pos asked).0 ≡ moved =
        omega (arith, stops buf d.bytes pos asked) in
      let c : (u.copy_to_user buf d.bytes pos asked).1 ≡ m =
        fun_ext (λ i. u.to_bytes buf d.bytes pos asked i ∙ rw s (sym (b i))) in
      e ∙ sym (read-eq u v buf lbuf pos inside fits ∙ rw (s, c))
