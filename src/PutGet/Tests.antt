-- ===== src/PutGet/Tests.antt =====
-- The theorems on the byte-wise device at concrete inputs: a disk of 8 bytes.
use linux_foundation_embedde.Base.{ℕ, zero, suc, ◌*◌, ◌≡◌, Bool, false, refl, arith, leb}
use linux_foundation_embedde.Kernel.UserAccess.{Memory, zeros}
use linux_foundation_embedde.Kernel.FullAccess.{full_access}
use linux_foundation_embedde.CharDevice.{ok, Disk, mycdrv_generic_read}
use linux_foundation_embedde.CharDevice.Bounds.{IsValid}
use linux_foundation_embedde.PutGet.{mycdrv_read, mycdrv_write}
use linux_foundation_embedde.PutGet.Laws.{
  accessible, fetched, get_write_inside, put_read-eq-generic_read,
}

abbrev small : Disk
small = record { bytes = λ i. i * 10; allocated = 8; ramdisk_size = 8 }

small-IsValid : IsValid small
small-IsValid = omega arith

abbrev never : ℕ → Bool
never i = false

abbrev from_third : ℕ → Bool
from_third i = leb 2 i

accessible-never : (i n : ℕ) → accessible never i n ≡ n
unfolding accessible
accessible-never i zero = refl
accessible-never i (suc n) = omega (arith, accessible-never (suc i) n)

get_write_inside_example :
    (m : Memory) × (mycdrv_write from_third small zeros 6 3
      ≡ ok (record { nbytes = 2; pos = 5; bytes = m }))
    × ((i : ℕ) → m i ≡ fetched small.bytes 3 zeros 0 2 5 i)
unfolding accessible
get_write_inside_example =
    get_write_inside from_third small-IsValid zeros 6 3 (omega arith) (omega arith)

put_read-eq-generic_read_example :
    mycdrv_read never small zeros 6 3 ≡ mycdrv_generic_read full_access small zeros 6 3
put_read-eq-generic_read_example =
    put_read-eq-generic_read never small-IsValid zeros 6 3 (omega arith) (omega arith) full_access
      (λ to from offset n. omega (arith, accessible-never 0 n))
