-- ===== src/Network/Lines.antt =====
-- printline and the loop that calls it, of lab_transmit.c (lab_receive.c and lab_transmit_simple.c
-- repeat them): a packet is printed in lines of 16 bytes.
use mathlib.Core.List.{append_assoc}
use linux_foundation_embedde.Base.{
  ℕ, zero, suc, ◌+◌, ◌*◌, ◌-◌, ◌^◌, to_int, ◌≤◌, ◌<◌, ◌≡◌, ◌∙◌, ap, sym, arith, refl, inl, inr,
  Bool-cases, List, [], ◌∷◌, ◌++◌, length, length-append, ltb, ltb→lt, if◌then◌else◌,
}

-- What printline builds in `line[256]` from the `n` bytes at `data + offset`. `entry` is the text,
-- without its terminating NUL, that sprintf makes of a byte by the format " %2x".
unfoldable pub printline : (entry : ℕ → List ℕ) → (bytes : ℕ → ℕ) → (offset n : ℕ) → List ℕ
printline entry bytes offset zero = []
printline entry bytes offset (suc n) = entry (bytes offset) ++ printline entry bytes (suc offset) n

-- The calls of printline, as the offset and the number of bytes, from offset `i` on. Each round
-- takes 16 bytes, so the length is fuel enough. `i` is an `int`.
unfoldable pub lines_from : (fuel i len : ℕ) → List (ℕ × ℕ)
lines_from zero i len = []
lines_from (suc fuel) i len =
    let rest =
      (i, if ltb (len - i) 16 then len - i else 16) ∷ lines_from fuel (to_int (i + 16)) len in
    if ltb i len then rest else []

unfoldable pub lines : ℕ → List (ℕ × ℕ)
unfolding lines_from
lines len = lines_from len 0 len

-- The `n` numbers from `i` on.
abbrev pub iota : ℕ → ℕ → List ℕ
iota i zero = []
iota i (suc n) = i ∷ iota (suc i) n

-- The offsets that some lines print.
abbrev pub offsets : List (ℕ × ℕ) → List ℕ
offsets [] = []
offsets ((i, n) ∷ rest) = iota i n ++ offsets rest

abbrev pub AllFit : List (ℕ × ℕ) → Type 0
AllFit [] = Unit
AllFit ((i, n) ∷ rest) = (0 < n) × (n ≤ 16) × AllFit rest

iota_ext : {i j m n : ℕ} → i ≡ j → m ≡ n → iota i m ≡ iota j n
iota_ext p q k = iota (p k) (q k)

iota-append : (i m n : ℕ) → iota i (m + n) ≡ iota i m ++ iota (i + m) n
iota-append i zero n = iota_ext (omega arith) (omega arith)
iota-append i (suc m) n =
    iota_ext {i = i} {j = i} {m = suc m + n} {n = suc (m + n)} refl (omega arith)
    ∙ ap (λ l. i ∷ l)
        (iota-append (suc i) m n ∙ ap (λ l. iota (suc i) m ++ l) (iota_ext (omega arith) refl))

-- The bytes of one line.
abbrev chunk : ℕ → ℕ → ℕ
chunk i len = if ltb (len - i) 16 then len - i else 16

-- What is left after a line of 16 bytes, or after a shorter one, which is the last.
step :
    (i len : ℕ) {l : List ℕ}
    → i < len
    → l ≡ iota (i + 16) (len - (i + 16))
    → l ≡ iota (i + chunk i len) (len - i - chunk i len)
step i len h e = elim (Bool-cases (ltb (len - i) 16)) [
  | inl short ↦ e ∙ rw short (nothing (i + 16) (i + (len - i)) (ground arith) (omega arith))
  | inr full ↦ e ∙ rw full (iota_ext {i = i + 16} {j = i + 16} refl (omega arith))
]
  where
    nothing : (a b : ℕ) {m n : ℕ} → m ≡ 0 → n ≡ 0 → iota a m ≡ iota b n
    nothing a b p q = rw (p, q)

offsets-lines_from :
    (fuel i len : ℕ)
    → len ≤ i + 16 * fuel
    → i < 2 ^ 31
    → len + 16 ≤ 2 ^ 31
    → offsets (lines_from fuel i len) ≡ iota i (len - i)
unfolding lines_from
offsets-lines_from zero i len h b c =
    iota_ext {i = i} {j = i} {m = 0} {n = len - i} refl (omega arith)
offsets-lines_from (suc fuel) i len h b c = elim (Bool-cases (ltb i len)) [
  | inl more ↦
      let lt = ltb→lt i len more in
      let same : to_int (i + 16) ≡ i + 16 = omega arith in
      rw (more, same)
        (ap (λ l. iota i (chunk i len) ++ l)
            (step i len lt (offsets-lines_from fuel (i + 16) len (omega arith) (omega arith) c))
          ∙ sym (iota-append i (chunk i len) (len - i - chunk i len))
          ∙ iota_ext {i = i} {j = i} refl (ground (arith, lt)))
  | inr done ↦ rw done (iota_ext {i = i} {j = i} {m = 0} {n = len - i} refl (ground arith))
]

-- The text that printline makes of all lines, one behind the other.
abbrev pub printed : (entry : ℕ → List ℕ) → (bytes : ℕ → ℕ) → List (ℕ × ℕ) → List ℕ
printed entry bytes [] = []
printed entry bytes ((offset, n) ∷ rest) =
    printline entry bytes offset n ++ printed entry bytes rest

-- The text of the bytes at some offsets.
abbrev pub text_of : (entry : ℕ → List ℕ) → (bytes : ℕ → ℕ) → List ℕ → List ℕ
text_of entry bytes [] = []
text_of entry bytes (i ∷ rest) = entry (bytes i) ++ text_of entry bytes rest

printline-text_of :
    (entry : ℕ → List ℕ) (bytes : ℕ → ℕ) (offset n : ℕ) (rest : List ℕ)
    → printline entry bytes offset n ++ text_of entry bytes rest
      ≡ text_of entry bytes (iota offset n ++ rest)
unfolding printline
printline-text_of entry bytes offset zero rest = refl
printline-text_of entry bytes offset (suc n) rest =
    append_assoc (entry (bytes offset)) (printline entry bytes (suc offset) n)
      (text_of entry bytes rest)
    ∙ ap (λ l. entry (bytes offset) ++ l) (printline-text_of entry bytes (suc offset) n rest)

printed-text_of :
    (entry : ℕ → List ℕ) (bytes : ℕ → ℕ) (l : List (ℕ × ℕ))
    → printed entry bytes l ≡ text_of entry bytes (offsets l)
printed-text_of entry bytes [] = refl
printed-text_of entry bytes ((offset, n) ∷ rest) =
    ap (λ t. printline entry bytes offset n ++ t) (printed-text_of entry bytes rest)
    ∙ printline-text_of entry bytes offset n (offsets rest)

-- A packet of up to 2 ^ 31 - 16 bytes is printed whole: the text that printline makes of its lines, one behind the other,
-- is that of its bytes from the first to the last, each once.
pub lines_print_all :
    (entry : ℕ → List ℕ) (bytes : ℕ → ℕ) (len : ℕ)
    → len + 16 ≤ 2 ^ 31
    → printed entry bytes (lines len) ≡ text_of entry bytes (iota 0 len)
unfolding lines
lines_print_all entry bytes len small =
    printed-text_of entry bytes (lines len)
    ∙ ap (text_of entry bytes) (
        offsets-lines_from len 0 len (omega arith) (omega arith) small
        ∙ iota_ext {i = 0} {j = 0} {m = len - 0} {n = len} refl (omega arith))

lines_from-AllFit : (fuel i len : ℕ) → AllFit (lines_from fuel i len)
unfolding lines_from
lines_from-AllFit zero i len = tt
lines_from-AllFit (suc fuel) i len = ground (arith, lines_from-AllFit fuel (to_int (i + 16)) len)

length-printline-le :
    (entry : ℕ → List ℕ) (bytes : ℕ → ℕ) (offset n : ℕ)
    → ((b : ℕ) → b < 256 → length (entry b) ≤ 3)
    → ((i : ℕ) → bytes i < 256)
    → length (printline entry bytes offset n) ≤ 3 * n
unfolding printline
length-printline-le entry bytes offset zero short byte = omega arith
length-printline-le entry bytes offset (suc n) short byte = omega (
  arith,
  length-append (entry (bytes offset)) (printline entry bytes (suc offset) n),
  short (bytes offset) (byte offset),
  length-printline-le entry bytes (suc offset) n short byte,
)

-- Every line has between 1 and 16 bytes.
pub lines-AllFit : (len : ℕ) → AllFit (lines len)
unfolding lines
lines-AllFit len = lines_from-AllFit len 0 len

-- No line overflows the 256 characters of its buffer: if sprintf makes at most three characters of a
-- byte, the text of a line and its terminating NUL take at most 49.
printline_fits :
    (entry : ℕ → List ℕ) (bytes : ℕ → ℕ) (offset n : ℕ)
    → n ≤ 16
    → ((b : ℕ) → b < 256 → length (entry b) ≤ 3)
    → ((i : ℕ) → bytes i < 256)
    → length (printline entry bytes offset n) + 1 ≤ 49
printline_fits entry bytes offset n h short byte =
    omega (arith, length-printline-le entry bytes offset n short byte)
