-- ===== src/CharDevice/Tests.antt =====
-- The theorems on the generic character device at concrete inputs: a disk of 8 bytes.
use linux_foundation_embedde.Base.{ℕ, ◌+◌, ◌*◌, ◌≤◌, ◌≡◌, refl, arith}
use linux_foundation_embedde.Kernel.UserAccess.{Memory, splice, zeros}
use linux_foundation_embedde.Kernel.FullAccess.{full_access}
use linux_foundation_embedde.CharDevice.{
  ok, Disk, Transfer, bytes_to_do, mycdrv_generic_read, mycdrv_generic_write,
}
use linux_foundation_embedde.CharDevice.Bounds.{IsValid, room}
use linux_foundation_embedde.CharDevice.Contents.{write_inside, read-write}

abbrev small : Disk
small = record { bytes = λ i. i * 10; allocated = 8; ramdisk_size = 8 }

small-IsValid : IsValid small
small-IsValid = omega arith

abbrev letters : Memory
letters i = i + 97

abbrev written : Transfer
written = record { nbytes = 3; pos = 8; bytes = splice small.bytes 5 letters 0 3 }

abbrev shown : Transfer
shown = record { nbytes = 2; pos = 7; bytes = splice zeros 0 written.bytes 5 2 }

-- A write of 6 bytes at position 5 is cut to 3.
cut_write : mycdrv_generic_write full_access small letters 6 5 ≡ ok written
unfolding mycdrv_generic_write bytes_to_do
cut_write = refl

short_read :
    mycdrv_generic_read full_access (record small { bytes = written.bytes }) zeros 2 5 ≡ ok shown
unfolding mycdrv_generic_read bytes_to_do
short_read = refl

write_inside_example :
    (t : Transfer) × (mycdrv_generic_write full_access small letters 6 5 ≡ ok t)
    × (t.nbytes ≤ room 8 5 6)
    × (t.pos ≡ 5 + t.nbytes)
    × (t.pos ≤ 8)
    × ((i : ℕ)
        → t.bytes i ≡ splice (splice small.bytes 5 zeros 0 (room 8 5 6)) 5 letters 0 t.nbytes i)
write_inside_example =
    write_inside full_access small-IsValid letters 6 5 (omega arith) (omega arith)

read-write_example : shown.bytes 1 ≡ letters 1
read-write_example =
    read-write full_access small-IsValid letters zeros 6 2 5 (omega arith) (omega arith)
      (omega arith) cut_write short_read 1 (omega arith) (omega arith)
