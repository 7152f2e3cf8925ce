-- ===== src/Device/Messages.antt =====
-- lab_write.c and lab_read.c of chapter_22_sleeping_and_wait_queues/todo (chapter_23_deferrable_functions has the first
-- once more): a program that writes a message to the device, and one that reads and prints it.
use linux_foundation_embedde.Base.{
  Bool, true, not, ◌&&◌, ℕ, zero, suc, ◌+◌, ◌≤◌, ◌<◌, ◌≡◌, ◌≢◌, ◌==◌, if◌then◌else◌, ltb, List, [],
  ◌∷◌, ◌++◌, length, arith, refl, ap, ◌∙◌, fun_ext,
}
use linux_foundation_embedde.Kernel.UserAccess.{Memory, splice}
use linux_foundation_embedde.CharDevice.{Access, ok, overrun}
use linux_foundation_embedde.CharDevice.Bounds.{IsValid}
use linux_foundation_embedde.Device.{Device}
use linux_foundation_embedde.Device.Files.{
  ◌>>=◌, Call, opens, reads, writes, Log, Opened, run, File, replay, view, opened, AreInside,
  run_refines,
}

-- "TESTING CHAR DRIVER WITH A WRITE", without its end.
abbrev pub message : List ℕ
message =
    b'T' ∷ b'E' ∷ b'S' ∷ b'T' ∷ b'I' ∷ b'N' ∷ b'G' ∷ b' ' ∷ b'C' ∷ b'H' ∷ b'A' ∷ b'R' ∷ b' ' ∷ b'D'
    ∷ b'R' ∷ b'I' ∷ b'V' ∷ b'E' ∷ b'R' ∷ b' ' ∷ b'W' ∷ b'I' ∷ b'T' ∷ b'H' ∷ b' ' ∷ b'A' ∷ b' '
    ∷ b'W' ∷ b'R' ∷ b'I' ∷ b'T' ∷ b'E' ∷ []

-- A string in memory, with its end.
abbrev pub string : List ℕ → Memory
string [] i = 0
string (c ∷ rest) zero = c
string (c ∷ rest) (suc i) = string rest i

-- The calls of lab_write.c: the length is strlen (buffer).
unfoldable pub lab_write : (fd : ℕ) → List Call
lab_write fd = opens fd ∷ writes fd (string message) (length message) ∷ []

-- lab_write.c of chapter_23_deferrable_functions.
abbrev pub write_again : (fd : ℕ) → List Call
write_again = lab_write

-- The calls of lab_read.c: `block` is what malloc gave.
unfoldable pub lab_read : (fd nbytes : ℕ) → (block : Memory) → List Call
lab_read fd nbytes block = opens fd ∷ reads fd block nbytes ∷ []

-- What printf prints by "%s" of the string at `i`, with `left` bytes of its block from there on.
unfoldable pub print_string : (left : ℕ) → Memory → (i : ℕ) → Access (List ℕ)
print_string zero m i = overrun
print_string (suc left) m i =
    let rest = (do line ← print_string left m (i + 1); ok (m i ∷ line)) in
    if m i == 0 then ok [] else rest

print_string-overrun :
    (left : ℕ) (m : Memory) (i : ℕ)
    → ((j : ℕ) → i ≤ j → j < i + left → m j ≢ 0)
    → print_string left m i ≡ overrun
unfolding print_string
print_string-overrun zero m i h = refl
print_string-overrun (suc left) m i h =
    let later = print_string-overrun left m (i + 1) (λ j l k. h j (omega arith) (omega arith)) in
    ground (arith, h i (omega arith) (omega arith), later)

abbrev all_set : List ℕ → Bool
all_set [] = true
all_set (c ∷ rest) = not (c == 0) && all_set rest

string-all_set : (l : List ℕ) → all_set l ≡ true → (i : ℕ) → i < length l → string l i ≢ 0
string-all_set [] all i lt = absurd (omega arith)
string-all_set (c ∷ rest) all zero lt = ground arith
string-all_set (c ∷ rest) all (suc i) lt = string-all_set rest (ground arith) i (omega arith)

-- The reader's buffer after the call.
abbrev pub received : (nbytes : ℕ) → Memory → Memory
received nbytes block i = if ltb i nbytes then string message i else block i

messages_log :
    (f : File) (fd fd' nbytes : ℕ) (block : Memory)
    → length message ≤ f.size
    → nbytes ≤ length message
    → (replay (lab_write fd ++ lab_read fd' nbytes block) f).1
      ≡ (length message, string message) ∷ (nbytes, received nbytes block) ∷ []
unfolding lab_write lab_read replay
messages_log f fd fd' nbytes block big short =
    let bytes : splice block 0 (splice f.contents 0 (string message) 0 (length message)) 0 nbytes
        ≡ received nbytes block =
      fun_ext λ i. ground arith in
    ground (arith, bytes)

-- If the disk has room for the message, then through every driver that fills the interface the reader, which asks for
-- as many bytes as the message has or for fewer, gets that much of it; and its printf then runs over the end of the
-- buffer, since the message comes without an end.
pub read_overruns_print :
    (dev : Device) (s : Opened)
    → IsValid s.disk
    → AreInside s
    → length message ≤ s.disk.ramdisk_size
    → (fd fd' nbytes : ℕ) (block : Memory) → nbytes ≤ length message
    → (t : Opened) × (run dev (lab_write fd ++ lab_read fd' nbytes block) s
        ≡ ok (t, (length message, string message) ∷ (nbytes, received nbytes block) ∷ []))
      × (print_string nbytes (received nbytes block) 0 ≡ overrun)
read_overruns_print dev s v inside big fd fd' nbytes block short =
    let calls : List Call = lab_write fd ++ lab_read fd' nbytes block in
    let t : Opened = opened s.disk.allocated (replay calls (view s)).0 in
    (
      t,
      run_refines dev calls s v inside
            (unfold lab_write lab_read in (omega arith, (omega arith, tt)))
          ∙ ap (λ (l : Log). ok (t, l)) (messages_log (view s) fd fd' nbytes block big short),
      print_string-overrun nbytes (received nbytes block) 0
          (λ j l k. ground (arith, string-all_set message refl j (omega arith))),
    )
