-- ===== src/Pci/Tests.antt =====
-- The theorem on the PCI device finder at a bus of three devices.
use linux_foundation_embedde.Base.{
  ℕ, ◌+◌, ◌-◌, ◌^◌, ◌≡◌, Option, some, ltb, if◌then◌else◌, arith, refl, none,
}
use linux_foundation_embedde.Pci.{
  Bus, Counts, Register, pci_vendor_id, pci_device_id, pci_interrupt_line, Run, char_printed, held,
  next, my_init, listing, my_init-listing,
}

abbrev found : Option ℕ → Option ℕ
found from = if ltb (next from) 3 then some (next from) else none

abbrev three : Bus
three = record {
  devices = 3;
  pci_get_device = λ from c. (found from, λ i. c i + held (found from) i - held from i);
  get_lem = λ from c. refl;
  get_counts = λ from c i. refl;
  pci_dev_put = λ j c i. c i - held (some j) i;
  put_lem = λ j c i. refl;
}

-- No interrupt line is connected, which the register says by 255.
abbrev words : ℕ → Register → ℕ
words d pci_vendor_id = 0x8086
words d pci_device_id = 0x1000 + d
words d _ = 7

abbrev bytes : ℕ → Register → ℕ
bytes d pci_interrupt_line = 255
bytes d _ = 2

abbrev two_each : Counts
two_each i = 2

my_init-listing_example :
    (r : Run) × (my_init three words bytes two_each ≡ some r)
    × (r.log ≡ listing three words bytes 3 0 0)
    × ((i : ℕ) → r.counts i ≡ (if ltb i 3 then 2 - 1 else 2))
my_init-listing_example =
    my_init-listing three words bytes two_each (omega arith) (λ i lt. omega arith)

-- The interrupt line 255 is logged as -1, which is 2 ^ 32 - 1 here.
line_255_logged : char_printed 255 ≡ 2 ^ 32 - 1
unfolding char_printed
line_255_logged = refl
