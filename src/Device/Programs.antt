-- ===== src/Device/Programs.antt =====
-- Programs that use a device: chapter_13_mem_user_and_kernel_space/get_and_put_user/put_and_get_app.c
-- and chapter_11_character_drivers/todo/lab_char_test.c, by their system calls.
use linux_foundation_embedde.Base.{
  false, ℕ, ◌+◌, ◌^◌, ◌<◌, ◌≡◌, ◌≢◌, ◌==◌, if◌then◌else◌, ltb, List, [], ◌∷◌, arith, ap, ◌∙◌,
  fun_ext,
}
use linux_foundation_embedde.Kernel.UserAccess.{Memory, splice}
use linux_foundation_embedde.CharDevice.{Access, ok, overrun}
use linux_foundation_embedde.CharDevice.Bounds.{IsValid, room}
use linux_foundation_embedde.Device.{Device}
use linux_foundation_embedde.Device.Files.{
  ◌>>=◌, Call, opens, reads, writes, Log, Opened, run, File, replay, view, opened, AreInside,
  run_refines,
}

-- The bytes after memset (message, 'x', length) and the terminator, in the block that malloc gave.
abbrev pub filled : (length : ℕ) → Memory → Memory
filled length block i = if i + 1 == length then 0 else if ltb i length then 120 else block i

-- The two stores. `message[length - 1]` lies before the block where the length is 0.
unfoldable pub fill_message : (length : ℕ) → Memory → Access Memory
fill_message length block = if length == 0 then overrun else ok (filled length block)

-- memset (message, 0, length)
abbrev pub clear : (length : ℕ) → Memory → Memory
clear length m i = if ltb i length then 0 else m i

-- The calls of put_and_get_app.c: the node is opened, written, closed, opened again and read. `fd`
-- and `again` are the descriptors that the two opens return.
unfoldable pub put_and_get_calls : (fd again length : ℕ) → (message : Memory) → List Call
put_and_get_calls fd again length message =
    opens fd
    ∷ writes fd message length
    ∷ opens again
    ∷ reads again (clear length message) length
    ∷ []

-- The program, on a device.
unfoldable pub put_and_get_app :
    Device → (fd again length : ℕ) → (block : Memory) → Opened → Access (Opened × Log)
put_and_get_app dev fd again length block s = do
  message ← fill_message length block
  run dev (put_and_get_calls fd again length message) s

-- The calls of lab_char_test.c, which holds two descriptors at a time.
unfoldable pub char_test : (fd1 fd2 length : ℕ) → (message : Memory) → List Call
char_test fd1 fd2 length message =
    opens fd1 ∷ opens fd2 ∷ writes fd1 message length ∷ reads fd2 (clear length message) length ∷ []

-- The programs beside memory_allocation.c and improve_char_driver.c make the same calls on their nodes.
abbrev pub memory_allocation_app : (fd1 fd2 length : ℕ) → (message : Memory) → List Call
memory_allocation_app = char_test

abbrev pub improve_char_app : (fd1 fd2 length : ℕ) → (message : Memory) → List Call
improve_char_app = char_test

-- What a program sees that writes a message and reads it back: both calls move what fits on the
-- disk, and so much of the message comes back, with zeros behind it.
abbrev pub comes_back : (size length : ℕ) → Memory → Log
comes_back size length message =
    let n = room size 0 length in
    (n, message) ∷ (n, λ i. if ltb i n then message i else clear length message i) ∷ []

-- The file's end of it.
module _ (f : File) (length : ℕ) where
  written_back :
      (message : Memory) (n : ℕ)
      → splice (clear length message) 0 (splice f.contents 0 message 0 n) 0 n
        ≡ (λ i. if ltb i n then message i else clear length message i)
  written_back message n = fun_ext λ i. ground arith

  app_log :
      (fd again : ℕ) (block : Memory)
      → (replay (put_and_get_calls fd again length (filled length block)) f).1
        ≡ comes_back f.size length (filled length block)
  unfolding put_and_get_calls replay
  app_log fd again block = ground (arith, written_back (filled length block) (room f.size 0 length))

  test_log :
      (fd1 fd2 : ℕ) (message : Memory)
      → fd1 ≢ fd2
      → (replay (char_test fd1 fd2 length message) f).1 ≡ comes_back f.size length message
  unfolding char_test replay
  test_log fd1 fd2 message differ = ground (arith, written_back message (room f.size 0 length))

module _ (dev : Device) (s : Opened) (v : IsValid s.disk) (inside : AreInside s) (length : ℕ)
    (small : length < 2 ^ 63) where
  -- Asked for a length that is not 0, the program gets its message back through every driver that fills the interface,
  -- whatever was on the disk and whatever descriptors it is given: both calls return the length, cut at the size of the
  -- disk, and the bytes that were read are those that were written.
  pub app_reads_back :
      (fd again : ℕ) (block : Memory)
      → 0 < length
      → (t : Opened) × (put_and_get_app dev fd again length block s
          ≡ ok (t, comes_back s.disk.ramdisk_size length (filled length block)))
  unfolding put_and_get_app fill_message
  app_reads_back fd again block some =
      let calls : List Call = put_and_get_calls fd again length (filled length block) in
      let t : Opened = opened s.disk.allocated (replay calls (view s)).0 in
      let full : (length == 0) ≡ false = ground arith in
      (
        t,
        rw full (
            run_refines dev calls s v inside (unfold put_and_get_calls in (small, (small, tt)))
            ∙ ap (λ (l : Log). ok (t, l)) (app_log (view s) length fd again block)),
      )

  -- A program that holds two descriptors of the device at a time gets its message back through the
  -- other one.
  test_reads_back :
      (fd1 fd2 : ℕ) (message : Memory)
      → fd1 ≢ fd2
      → (t : Opened) × (run dev (char_test fd1 fd2 length message) s
          ≡ ok (t, comes_back s.disk.ramdisk_size length message))
  test_reads_back fd1 fd2 message differ =
      let calls : List Call = char_test fd1 fd2 length message in
      let t : Opened = opened s.disk.allocated (replay calls (view s)).0 in
      (
        t,
        run_refines dev calls s v inside (unfold char_test in (small, (small, tt)))
            ∙ ap (λ (l : Log). ok (t, l)) (test_log (view s) length fd1 fd2 message differ),
      )
