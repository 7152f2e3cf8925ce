-- ===== src/Device/Drivers.antt =====
-- The generic character device and the byte-wise one as devices.
use linux_foundation_embedde.Base.{
  ℕ, zero, suc, ◌+◌, ◌^◌, ◌≤◌, ◌<◌, ◌≡◌, Bool, false, arith, refl, ◌∙◌, fun_ext,
}
use linux_foundation_embedde.Kernel.UserAccess.{Memory, UserAccess, splice}
use linux_foundation_embedde.Kernel.FullAccess.{IsFull}
use linux_foundation_embedde.CharDevice.{
  ok, Disk, Transfer, mycdrv_generic_read, mycdrv_generic_write,
}
use linux_foundation_embedde.CharDevice.Bounds.{IsValid, room, read-eq, write-eq}
use linux_foundation_embedde.PutGet
use linux_foundation_embedde.PutGet.Laws.{accessible, fetched, get_write_inside, put_read_inside}
use linux_foundation_embedde.Device.{Device}

abbrev pub whole : ℕ → ℕ → Memory → Transfer
whole n pos m = record { nbytes = n; pos = pos + n; bytes = m }

-- User access that does not fail makes a copy of one block.
module _ (u : UserAccess) (full : IsFull u) where
  copy_to_user-eq :
      (to from : Memory) (offset n : ℕ)
      → u.copy_to_user to from offset n ≡ (0, splice to 0 from offset n)
  copy_to_user-eq to from offset n =
      let e = full.to_full to from offset n in
      let b : (u.copy_to_user to from offset n).1 ≡ splice to 0 from offset n =
        fun_ext λ i. u.to_bytes to from offset n i ∙ rw e (ground arith) in
      ground (arith, e, b)

  copy_from_user-eq :
      (to : Memory) (offset : ℕ) (from : Memory) (n : ℕ)
      → u.copy_from_user to offset from n ≡ (0, splice to offset from 0 n)
  copy_from_user-eq to offset from n =
      let e = full.from_full to offset from n in
      let b : (u.copy_from_user to offset from n).1 ≡ splice to offset from 0 n =
        fun_ext λ i. u.from_bytes to offset from n i ∙ rw e (ground arith) in
      ground (arith, e, b)

  pub generic_read_lem :
      (d : Disk)
      → IsValid d
      → (buf : Memory) (lbuf pos : ℕ) → pos ≤ d.ramdisk_size
      → lbuf < 2 ^ 63
      → let n = room d.ramdisk_size pos lbuf in
        mycdrv_generic_read u d buf lbuf pos ≡ ok (whole n pos (splice buf 0 d.bytes pos n))
  generic_read_lem d v buf lbuf pos inside h =
      read-eq u v buf lbuf pos inside h
      ∙ rw (copy_to_user-eq buf d.bytes pos (room d.ramdisk_size pos lbuf)) (ground arith)

  pub generic_write_lem :
      (d : Disk)
      → IsValid d
      → (buf : Memory) (lbuf pos : ℕ) → pos ≤ d.ramdisk_size
      → lbuf < 2 ^ 63
      → let n = room d.ramdisk_size pos lbuf in
        mycdrv_generic_write u d buf lbuf pos ≡ ok (whole n pos (splice d.bytes pos buf 0 n))
  generic_write_lem d v buf lbuf pos inside h =
      write-eq u v buf lbuf pos inside h
      ∙ rw (copy_from_user-eq d.bytes pos buf (room d.ramdisk_size pos lbuf)) (ground arith)

  abbrev pub generic_device : Device
  generic_device = record {
    read = mycdrv_generic_read u;
    write = mycdrv_generic_write u;
    read_lem = generic_read_lem;
    write_lem = generic_write_lem;
  }

-- No address faults.
abbrev pub never : ℕ → Bool
never i = false

pub accessible-never : (i n : ℕ) → accessible never i n ≡ n
unfolding accessible
accessible-never i zero = refl
accessible-never i (suc n) = omega (arith, accessible-never (suc i) n)

pub bytewise_read_lem :
    (d : Disk)
    → IsValid d
    → (buf : Memory) (lbuf pos : ℕ) → pos ≤ d.ramdisk_size
    → lbuf < 2 ^ 63
    → let n = room d.ramdisk_size pos lbuf in
      PutGet.mycdrv_read never d buf lbuf pos ≡ ok (whole n pos (splice buf 0 d.bytes pos n))
bytewise_read_lem d v buf lbuf pos inside h =
    let (m, e, b) = put_read_inside never v buf lbuf pos inside h in
    let all = accessible-never 0 (room d.ramdisk_size pos lbuf) in
    let c : m ≡ splice buf 0 d.bytes pos (room d.ramdisk_size pos lbuf) =
      fun_ext λ i. b i ∙ rw all in
    e ∙ rw (c, all)

fetched-all :
    (disk : Memory) (tmp : ℕ) (buf : Memory) (n i : ℕ)
    → fetched disk tmp buf 0 n n i ≡ splice disk tmp buf 0 n i
fetched-all disk tmp buf n i = ground arith

pub bytewise_write_lem :
    (d : Disk)
    → IsValid d
    → (buf : Memory) (lbuf pos : ℕ) → pos ≤ d.ramdisk_size
    → lbuf < 2 ^ 63
    → let n = room d.ramdisk_size pos lbuf in
      PutGet.mycdrv_write never d buf lbuf pos ≡ ok (whole n pos (splice d.bytes pos buf 0 n))
bytewise_write_lem d v buf lbuf pos inside h =
    let (m, e, b) = get_write_inside never v buf lbuf pos inside h in
    let all = accessible-never 0 (room d.ramdisk_size pos lbuf) in
    let c : m ≡ splice d.bytes pos buf 0 (room d.ramdisk_size pos lbuf) =
      fun_ext λ i. b i ∙ rw all (fetched-all d.bytes pos buf (room d.ramdisk_size pos lbuf) i) in
    e ∙ rw (c, all)

abbrev pub bytewise_device : Device
bytewise_device = record {
  read = PutGet.mycdrv_read never;
  write = PutGet.mycdrv_write never;
  read_lem = bytewise_read_lem;
  write_lem = bytewise_write_lem;
}
