-- ===== src/CharDrivers/Tests.antt =====
-- The theorems on the drivers of chapter_11_character_drivers at concrete inputs.
use linux_foundation_embedde.Base.{◌⊎◌, ◌≡◌, true, some, [], ◌∷◌, refl, arith, here, next, Chain}
use linux_foundation_embedde.Kernel.UserAccess.{zeros}
use linux_foundation_embedde.Kernel.FullAccess.{full_access}
use linux_foundation_embedde.CharDevice.{Disk, ok, overrun}
use linux_foundation_embedde.CharDevice.Bounds.{IsValid}
use linux_foundation_embedde.CharDrivers.Versions.{versions_agree}
use linux_foundation_embedde.CharDrivers.Char
use linux_foundation_embedde.CharDrivers.Dynamic
use linux_foundation_embedde.CharDrivers.Misc
use linux_foundation_embedde.CharDrivers.MemoryAllocation
use linux_foundation_embedde.CharDrivers.MemoryAllocation.{find, close, blocks}
use linux_foundation_embedde.CharDrivers.MemoryAllocation.Leaks

-- Two files were opened, and the second one has block 1.
abbrev busy : MemoryAllocation.State
busy = record {
  counter = 2;
  files =
      record { file = 11; private_data = some 1 }
      ∷ record { file = 10; private_data = some 0 }
      ∷ [];
  live = 1 ∷ 0 ∷ [];
  next = 2;
}

opens_two : Chain Leaks.Step Leaks.loaded busy
unfolding MemoryAllocation.mycdrv_open
opens_two =
    next (next here (Leaks.Step.open_file 10 true Leaks.loaded)) (Leaks.Step.open_file 11 true _)

found : find 10 busy.files ≡ some (record { file = 10; private_data = some 0 })
unfolding find
found = refl

no_block_leaks_example :
    (1 ∷ 0 ∷ [] ≡ blocks busy.files)
    × ((t : MemoryAllocation.State) × (MemoryAllocation.mycdrv_release
            (record { file = 10; private_data = some 0 })
            busy
          ≡ some t)
        × (t.live ≡ blocks (close 10 busy.files)))
no_block_leaks_example = Leaks.no_block_leaks opens_two 10 found

-- Four bytes from position 2 of a disk of 16 bytes.
abbrev small_disk : Disk
small_disk = record { bytes = λ i. i; allocated = 16; ramdisk_size = 16 }

small_disk-IsValid : IsValid small_disk
small_disk-IsValid = record { whole = refl; small = omega arith }

versions_agree_example :
    let read = Dynamic.mycdrv_read full_access small_disk zeros 4 2 in
    let write = Dynamic.mycdrv_write full_access small_disk zeros 4 2 in
    ((Char.mycdrv_read full_access small_disk zeros 4 2 ≡ overrun)
      ⊎ (Char.mycdrv_read full_access small_disk zeros 4 2 ≡ read))
    × ((Char.mycdrv_write full_access small_disk zeros 4 2 ≡ overrun)
        ⊎ (Char.mycdrv_write full_access small_disk zeros 4 2 ≡ write))
    × ((Misc.sample_read full_access small_disk zeros 4 2
          ≡ ok (record { nbytes = 0; pos = 2; bytes = zeros }))
        ⊎ (Misc.sample_read full_access small_disk zeros 4 2 ≡ read))
    × ((Misc.sample_write full_access small_disk zeros 4 2
          ≡ ok (record { nbytes = 0; pos = 2; bytes = λ i. i }))
        ⊎ (Misc.sample_write full_access small_disk zeros 4 2 ≡ write))
versions_agree_example =
    versions_agree full_access small_disk-IsValid zeros 4 2 (omega arith) (omega arith)
