-- ===== src/Ioctl/Tests.antt =====
-- The theorems on the ioctl handlers at concrete inputs.
use linux_foundation_embedde.Base.{[], ◌∷◌, ltb, ◌/◌, ◌%◌, ◌≡◌, refl, arith, ◌==◌, if◌then◌else◌}
use linux_foundation_embedde.Kernel.UserAccess.{Memory, zeros}
use linux_foundation_embedde.Kernel.FullAccess.{full_access}
use linux_foundation_embedde.CharDevice.{ok}
use linux_foundation_embedde.Kernel.FullAccess.{IsFull}
use linux_foundation_embedde.Ioctl.{returns}
use linux_foundation_embedde.Ioctl.Programs.DataTest.{
  IsOfStruct, data_test, fill_up, data_test_reads_back,
}
use linux_foundation_embedde.Ioctl.FixedData

full : IsFull full_access
full = record { to_full = λ to from offset n. refl; from_full = λ to offset from n. refl }

-- The register holds 0x394828, and the message is all 65.
abbrev vampire : Memory
vampire i =
    if i == 0
    then 0x28
    else if i == 1
    then 0x48
    else if i == 2
    then 0x39
    else if i == 3
    then 0
    else 65

-- A command is 1000000 for the type, 100000 for a read, 200000 for a write, and the size.
abbrev decimal : FixedData.Encoding
decimal = record {
  type_of = λ c. c / 1000000;
  dir_of = λ c. c / 100000 % 10;
  size_of = λ c. c % 100000;
  write = 2;
  read = 1;
  magic = 1;
}

-- The commands of the struct of 272 bytes.
struct_commands : IsOfStruct decimal 1100272 1200272
struct_commands = record {
  differ = omega arith;
  ior_type = refl;
  iow_type = refl;
  ior_dir = refl;
  iow_dir = refl;
  ior_size = refl;
  iow_size = refl;
}

data_test_reads_back_example :
    data_test full_access decimal 1100272 1200272 zeros vampire
    ≡ ok (
      returns 0 ∷ returns 0 ∷ returns 0 ∷ [],
      fill_up (λ i. if ltb i 272 then zeros i else vampire i),
    )
data_test_reads_back_example =
    data_test_reads_back full_access full decimal 1100272 1200272 struct_commands zeros vampire
