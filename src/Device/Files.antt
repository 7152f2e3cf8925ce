-- ===== src/Device/Files.antt =====
-- A run of calls on open files of a device, and the file that it should look like.
use linux_foundation_embedde.Base.{
  ℕ, ◌+◌, ◌^◌, ◌≤◌, ◌<◌, ◌≡◌, ◌==◌, if◌then◌else◌, List, [], ◌∷◌, arith, refl,
}
use linux_foundation_embedde.Kernel.UserAccess.{Memory, splice}
use linux_foundation_embedde.CharDevice.{Access, ok, overrun, Disk}
use linux_foundation_embedde.CharDevice.Bounds.{IsValid, room}
use linux_foundation_embedde.Device.{Device}

-- A call with its file descriptor, the program's buffer and the length.
pub data Call : Type 0 where
  opens : ℕ → Call
  reads : ℕ → Memory → ℕ → Call
  writes : ℕ → Memory → ℕ → Call

-- What the calls returned, in their order, with the program's buffer.
abbrev pub Log : Type 0
Log = List (ℕ × Memory)

abbrev pub update : (ℕ → ℕ) → ℕ → ℕ → ℕ → ℕ
update f i v j = if j == i then v else f j

-- The disk, and `*ppos` of each descriptor.
pub record Opened : Type 0 where
  pub disk : Disk
  pub pos : ℕ → ℕ

infixl 5 ◌>>=◌
abbrev pub ◌>>=◌ {ℓ κ} : {A : Type ℓ} {B : Type κ} → Access A → (A → Access B) → Access B
ok a >>= f = f a
overrun >>= f = overrun

module _ (dev : Device) where
  unfoldable pub run : List Call → Opened → Access (Opened × Log)
  run [] s = ok (s, [])
  run (opens fd ∷ calls) s = run calls (record s { pos = update s.pos fd 0 })
  run (reads fd buf lbuf ∷ calls) s = do
    t ← dev.read s.disk buf lbuf (s.pos fd)
    rest ← run calls (record s { pos = update s.pos fd t.pos })
    ok (rest.0, (t.nbytes, t.bytes) ∷ rest.1)
  run (writes fd buf lbuf ∷ calls) s = do
    t ← dev.write s.disk buf lbuf (s.pos fd)
    rest ←
        run calls (record { disk = record s.disk { bytes = t.bytes }; pos = update s.pos fd t.pos })
    ok (rest.0, (t.nbytes, buf) ∷ rest.1)

-- A file of a fixed size, shared by the descriptors.
pub record File : Type 0 where
  pub contents : Memory
  pub size : ℕ
  pub pos : ℕ → ℕ

-- The same calls on it: no call fails, and each moves what fits.
unfoldable pub replay : List Call → File → File × Log
replay [] f = (f, [])
replay (opens fd ∷ calls) f = replay calls (record f { pos = update f.pos fd 0 })
replay (reads fd buf lbuf ∷ calls) f =
    let n = room f.size (f.pos fd) lbuf in
    let rest = replay calls (record f { pos = update f.pos fd (f.pos fd + n) }) in
    (rest.0, (n, splice buf 0 f.contents (f.pos fd) n) ∷ rest.1)
replay (writes fd buf lbuf ∷ calls) f =
    let n = room f.size (f.pos fd) lbuf in
    let rest = replay calls (record f {
      contents = splice f.contents (f.pos fd) buf 0 n;
      pos = update f.pos fd (f.pos fd + n);
    }) in
    (rest.0, (n, buf) ∷ rest.1)

abbrev pub view : Opened → File
view s = record { contents = s.disk.bytes; size = s.disk.ramdisk_size; pos = s.pos }

-- An opened device that shows a file.
abbrev pub opened : (allocated : ℕ) → File → Opened
opened allocated f = record {
  disk = record { bytes = f.contents; allocated = allocated; ramdisk_size = f.size };
  pos = f.pos;
}

-- The lengths are those of a `ssize_t`.
abbrev pub AreSmall : List Call → Type 0
AreSmall [] = Unit {0}
AreSmall (opens fd ∷ calls) = AreSmall calls
AreSmall (reads fd buf lbuf ∷ calls) = (lbuf < 2 ^ 63) × AreSmall calls
AreSmall (writes fd buf lbuf ∷ calls) = (lbuf < 2 ^ 63) × AreSmall calls

abbrev pub AreInside : Opened → Type 0
AreInside s = (fd : ℕ) → s.pos fd ≤ s.disk.ramdisk_size

-- Every run of calls on a driver that fills the interface, from positions inside the disk, is a run
-- on the file: it never leaves the disk, and at its end the disk, the positions and all that the
-- program has seen are those of the file.
pub run_refines :
    (dev : Device) (calls : List Call) (s : Opened)
    → IsValid s.disk
    → AreInside s
    → AreSmall calls
    → let (f, log) = replay calls (view s) in run dev calls s ≡ ok (opened s.disk.allocated f, log)
unfolding run replay
run_refines dev [] s v inside small = refl
run_refines dev (opens fd ∷ calls) s v inside small =
    run_refines dev calls (record s { pos = update s.pos fd 0 }) v (λ i. ground (arith, inside i))
      small
run_refines dev (reads fd buf lbuf ∷ calls) s v inside (h, small) =
    let n = room s.disk.ramdisk_size (s.pos fd) lbuf in
    rw (
      dev.read_lem s.disk v buf lbuf (s.pos fd) (inside fd) h,
      run_refines dev calls (record s { pos = update s.pos fd (s.pos fd + n) }) v
          (λ i. ground (arith, inside i, inside fd)) small,
    )
run_refines dev (writes fd buf lbuf ∷ calls) s v inside (h, small) =
    let n = room s.disk.ramdisk_size (s.pos fd) lbuf in
    rw (
      dev.write_lem s.disk v buf lbuf (s.pos fd) (inside fd) h,
      run_refines dev calls
          (record {
            disk = record s.disk { bytes = splice s.disk.bytes (s.pos fd) buf 0 n };
            pos = update s.pos fd (s.pos fd + n);
          })
          (record { whole = v.whole; small = v.small }) (λ i. ground (arith, inside i, inside fd))
          small,
    )
