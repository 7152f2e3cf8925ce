-- ===== src/Device/Tests.antt =====
-- The theorems on devices and programs at concrete runs: a disk of 8 bytes.
use linux_foundation_embedde.Base.{◌+◌, ◌*◌, ◌≡◌, List, [], ◌∷◌, ◌++◌, arith, refl}
use linux_foundation_embedde.Kernel.UserAccess.{zeros, splice}
use linux_foundation_embedde.Kernel.FullAccess.{full_access, full_access-IsFull}
use linux_foundation_embedde.CharDevice.{Access, ok, overrun}
use linux_foundation_embedde.CharDevice.Bounds.{room}
use linux_foundation_embedde.MiscDevice.{SimpleBuffer, misc_device}
use linux_foundation_embedde.Device.Refinement.{drivers_refine_file}
use linux_foundation_embedde.Device.Files.{
  Call, opens, reads, writes, Opened, run, replay, view, opened, Log,
}
use linux_foundation_embedde.Device.Drivers.{generic_device, bytewise_device}
use linux_foundation_embedde.Device.Messages.{
  message, string, lab_write, lab_read, received, print_string, read_overruns_print,
}
use linux_foundation_embedde.Device.Programs.{filled, put_and_get_app, comes_back, app_reads_back}

abbrev small : Opened
small = record {
  disk = record { bytes = λ i. i * 10; allocated = 8; ramdisk_size = 8 };
  pos = λ fd. 0;
}

-- A write over the end of the disk, and a read of what it left behind.
abbrev calls : List Call
calls = opens 3 ∷ reads 3 zeros 5 ∷ writes 3 (λ i. i + 97) 6 ∷ opens 4 ∷ reads 4 zeros 20 ∷ []

abbrev simple : SimpleBuffer
simple = record {
  simple_read_from_buffer = λ to count ppos from available. (
    room available ppos count,
    ppos + room available ppos count,
    splice to 0 from ppos (room available ppos count),
  );
  read_some = λ to count ppos from available inside small. refl;
  simple_write_to_buffer = λ to available ppos from count. (
    room available ppos count,
    ppos + room available ppos count,
    splice to ppos from 0 (room available ppos count),
  );
  write_some = λ to available ppos from count inside small. refl;
}

-- What the file makes of the calls.
abbrev left_behind : Access (Opened × Log)
left_behind = ok (opened 8 (replay calls (view small)).0, (replay calls (view small)).1)

drivers_refine_file_example :
    (run (generic_device full_access full_access-IsFull) calls small ≡ left_behind)
    × (run bytewise_device calls small ≡ left_behind)
    × (run (misc_device simple) calls small ≡ left_behind)
drivers_refine_file_example =
    drivers_refine_file full_access full_access-IsFull simple calls small (omega arith)
      (λ fd. omega arith) (omega arith, (omega arith, (omega arith, tt)))

app_reads_back_example :
    (t : Opened) × (put_and_get_app bytewise_device 3 3 5 zeros small
      ≡ ok (t, comes_back 8 5 (filled 5 zeros)))
app_reads_back_example =
    app_reads_back bytewise_device small (omega arith) (λ fd. omega arith) 5 (omega arith) 3 3 zeros
      (omega arith)

abbrev forty : Opened
forty = record { disk = record { bytes = zeros; allocated = 40; ramdisk_size = 40 }; pos = λ fd. 0 }

read_overruns_print_example :
    (t : Opened) × (run bytewise_device (lab_write 3 ++ lab_read 4 32 zeros) forty
      ≡ ok (t, (32, string message) ∷ (32, received 32 zeros) ∷ []))
    × (print_string 32 (received 32 zeros) 0 ≡ overrun)
read_overruns_print_example =
    read_overruns_print bytewise_device forty (omega arith) (λ fd. omega arith) (omega arith) 3 4 32
      zeros (omega arith)
