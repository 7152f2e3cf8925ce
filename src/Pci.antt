-- ===== src/Pci.antt =====
-- chapter_25_pci/pci_device_finder_driver.c: a module that walks over the PCI devices and logs what their
-- configuration registers hold. The list of the devices and their reference counts are the kernel's.
mod Tests
use linux_foundation_embedde.Base.{
  ℕ, zero, suc, ◌+◌, ◌-◌, ◌^◌, ◌≤◌, ◌<◌, ◌≡◌, Bool, true, false, Option, none, some, List, [], ◌∷◌,
  ◌==◌, ltb, leb, ◌&&◌, if◌then◌else◌, arith, refl, ◌∙◌, ap, fun_ext, ◌++◌, to_int,
}
use mathlib.Core.List.{map}
use native.Mathlib.Decide.{dec_le}

-- The references held to each device.
abbrev pub Counts : Type 0
Counts = ℕ → ℕ

-- The device that follows another one in the list; `none` is NULL, before the first.
abbrev pub next : Option ℕ → ℕ
next none = 0
next (some i) = i + 1

-- The references that an optional device has more than another.
abbrev pub held : Option ℕ → ℕ → ℕ
held none i = 0
held (some j) i = if i == j then 1 else 0

-- The PCI devices are 0, 1 and so on, in the order of the list. pci_get_device (PCI_ANY_ID, PCI_ANY_ID, from)
-- returns the device behind `from` with one reference more, or NULL at the end of the list, and always drops a
-- reference to `from`; pci_dev_put drops one.
pub record Bus : Type 0 where
  pub devices : ℕ
  pub pci_get_device : (from : Option ℕ) → Counts → Option ℕ × Counts
  pub get_lem :
      (from : Option ℕ) (c : Counts)
      → (pci_get_device from c).0 ≡ (if ltb (next from) devices then some (next from) else none)
  pub get_counts :
      (from : Option ℕ) (c : Counts) (i : ℕ)
      → (pci_get_device from c).1 i ≡ c i + held (pci_get_device from c).0 i - held from i
  pub pci_dev_put : ℕ → Counts → Counts
  pub put_lem : (j : ℕ) (c : Counts) (i : ℕ) → pci_dev_put j c i ≡ c i - held (some j) i

-- The registers that my_init reads of each device.
pub data Register : Type 0 where
  pci_vendor_id pci_device_id pci_revision_id : Register
  pci_interrupt_line pci_latency_timer pci_command : Register

-- The lines of the log: the number `j`, pci_name () of a device, and a register with what is printed of it, as 32 bits.
pub data Line : Type 0 where
  device : (j : ℕ) → Line
  name : (pdev : ℕ) → Line
  register : Register → (printed : ℕ) → Line

-- `char byte` under %d: the eight bits are an int with their sign.
unfoldable pub char_printed : ℕ → ℕ
char_printed byte = if ltb byte 128 then byte else byte + 2 ^ 32 - 256

-- What my_init leaves: the log and the reference counts.
pub record Run : Type 0 where
  pub log : List Line
  pub counts : Counts

char_printed_lem : (v : ℕ) → char_printed v ≡ (if leb 128 v then 2 ^ 32 + v - 256 else v)
unfolding char_printed
char_printed_lem v = ground arith

-- The registers of one byte.
abbrev pub is_byte : Register → Bool
is_byte pci_revision_id = true
is_byte pci_interrupt_line = true
is_byte pci_latency_timer = true
is_byte _ = false

abbrev pub all_registers : List Register
all_registers =
    pci_vendor_id ∷ pci_device_id ∷ pci_revision_id ∷ pci_interrupt_line ∷ pci_latency_timer
    ∷ pci_command ∷ []

-- The bus, and the kernel's pci_read_config_word () and pci_read_config_byte (): what they leave in the variable that
-- they are given, whether or not they succeed.
module _ (b : Bus) (pci_read_config_word pci_read_config_byte : ℕ → Register → ℕ) where
  abbrev logged : List Line → Option Run → Option Run
  logged lines none = none
  logged lines (some r) = some (record r { log = lines ++ r.log })

  -- The body of the loop, whose `rest` is the rounds behind it, or its end.
  visit : (rest : ℕ → Option Run) (j : ℕ) → Option ℕ → Counts → Option Run
  visit rest j none c = some (record { log = []; counts = c })
  visit rest j (some pdev) c =
      let vendor_id = pci_read_config_word pdev pci_vendor_id in
      let device_id = pci_read_config_word pdev pci_device_id in
      let revision_id = pci_read_config_byte pdev pci_revision_id in
      let interrupt_line = pci_read_config_byte pdev pci_interrupt_line in
      let latency_timer = pci_read_config_byte pdev pci_latency_timer in
      let command = pci_read_config_word pdev pci_command in
      logged
        (device j
          ∷ name pdev
          ∷ register pci_vendor_id vendor_id
          ∷ register pci_device_id device_id
          ∷ register pci_revision_id (char_printed revision_id)
          ∷ register pci_interrupt_line (char_printed interrupt_line)
          ∷ register pci_latency_timer (char_printed latency_timer)
          ∷ register pci_command command
          ∷ [])
        (rest pdev)

  -- The loop of for_each_pci_dev, on fuel: `pdev` is the device that it left, and `j` counts. `none` when the
  -- fuel runs out.
  unfoldable pub find_loop : (fuel : ℕ) (pdev : Option ℕ) (j : ℕ) → Counts → Option Run
  unfolding visit
  find_loop zero pdev j c = none
  find_loop (suc fuel) pdev j c =
      let (found, c') = b.pci_get_device pdev c in
      visit (λ d. find_loop fuel (some d) (to_int (j + 1)) (b.pci_dev_put d c')) j found c'

  -- A round for each device, and one that finds none.
  unfoldable pub my_init : Counts → Option Run
  my_init c = find_loop (b.devices + 1) none 0 c

  -- What the log should show of a register: its value, but a byte from 128 on is shown as a negative number, 256 below
  -- its value.
  abbrev pub shown : (pdev : ℕ) → Register → ℕ
  shown d r =
      if is_byte r
      then (let v = pci_read_config_byte d r in if leb 128 v then 2 ^ 32 + v - 256 else v)
      else pci_read_config_word d r

  -- The lines of `k` devices from `d` on.
  abbrev pub listing : (k d j : ℕ) → List Line
  listing zero d j = []
  listing (suc k) d j =
      device j ∷ name d ∷ map (λ r. register r (shown d r)) all_registers
      ++ listing k (d + 1) (j + 1)

  -- The counts behind `k` further rounds from `d` on.
  after : (k d : ℕ) → Option ℕ → Counts → Counts
  after k d pdev c i = if leb d i && ltb i (d + k) then c i - 1 else c i - held pdev i

  held-above : (pdev : Option ℕ) (i : ℕ) → next pdev ≤ i → held pdev i ≡ 0
  held-above none i le = refl
  held-above (some j) i le = ground arith

  -- The lines of one round, and what they should be.
  entry : (d j : ℕ) → List Line
  entry d j =
      device j
      ∷ name d
      ∷ register pci_vendor_id (pci_read_config_word d pci_vendor_id)
      ∷ register pci_device_id (pci_read_config_word d pci_device_id)
      ∷ register pci_revision_id (char_printed (pci_read_config_byte d pci_revision_id))
      ∷ register pci_interrupt_line (char_printed (pci_read_config_byte d pci_interrupt_line))
      ∷ register pci_latency_timer (char_printed (pci_read_config_byte d pci_latency_timer))
      ∷ register pci_command (pci_read_config_word d pci_command)
      ∷ []

  entry_lem :
      (d j : ℕ) → entry d j ≡ device j ∷ name d ∷ map (λ r. register r (shown d r)) all_registers
  unfolding entry
  entry_lem d j =
      rw
        (
          char_printed_lem (pci_read_config_byte d pci_revision_id),
          char_printed_lem (pci_read_config_byte d pci_interrupt_line),
          char_printed_lem (pci_read_config_byte d pci_latency_timer),
        )
        refl

  -- One round's effect on the counts: the put drops what the get took.
  round : Option ℕ → Counts → Counts
  round pdev c = b.pci_dev_put (next pdev) (b.pci_get_device pdev c).1

  round_lem :
      (pdev : Option ℕ) (c : Counts) (i : ℕ)
      → (b.pci_get_device pdev c).0 ≡ some (next pdev)
      → round pdev c i ≡ c i + held (some (next pdev)) i - held pdev i - held (some (next pdev)) i
  unfolding round
  round_lem pdev c i got = b.put_lem (next pdev) _ i ∙ rw (b.get_counts pdev c i, got) refl

  round-above :
      (pdev : Option ℕ) (c : Counts) (i : ℕ)
      → (b.pci_get_device pdev c).0 ≡ some (next pdev)
      → next pdev ≤ i
      → round pdev c i ≡ c i
  round-above pdev c i got le = round_lem pdev c i got ∙ rw (held-above pdev i le) (omega arith)

  after-round :
      (k : ℕ) (pdev : Option ℕ) (c : Counts) (i : ℕ)
      → (b.pci_get_device pdev c).0 ≡ some (next pdev)
      → after k (next pdev + 1) (some (next pdev)) (round pdev c) i
        ≡ after (suc k) (next pdev) pdev c i
  unfolding after
  after-round k pdev c i got = elim (dec_le (next pdev) i) [
    | yes le ↦
        let same : round pdev c i ≡ c i = round-above pdev c i got le in
        let gone : held pdev i ≡ 0 = held-above pdev i le in rw (same, gone) (ground arith)
    | no gt ↦
        let low : round pdev c i ≡ c i - held pdev i = round_lem pdev c i got ∙ ground arith in
        rw low (ground arith)
  ]

  find_loop_lem :
      (k : ℕ) (pdev : Option ℕ) (j : ℕ) (c : Counts)
      → next pdev + k ≡ b.devices
      → j + k ≤ 2 ^ 31
      → ((i : ℕ) → next pdev ≤ i → i < b.devices → 0 < c i)
      → (r : Run) × (find_loop (suc k) pdev j c ≡ some r)
        × (r.log ≡ listing k (next pdev) j)
        × ((i : ℕ) → r.counts i ≡ after k (next pdev) pdev c i)
  unfolding find_loop after round entry
  find_loop_lem zero pdev j c e few h =
      let end : (b.pci_get_device pdev c).0 ≡ none = b.get_lem pdev c ∙ ground arith in
      (
        record { log = []; counts = (b.pci_get_device pdev c).1 },
        rw end refl,
        refl,
        λ i. b.get_counts pdev c i ∙ rw end (ground arith),
      )
  find_loop_lem (suc k) pdev j c e few h =
      let d : ℕ = next pdev in
      let got : (b.pci_get_device pdev c).0 ≡ some d = b.get_lem pdev c ∙ ground arith in
      let pos : (i : ℕ) → d + 1 ≤ i → i < b.devices → 0 < round pdev c i = λ i le lt.
        let le' : d ≤ i = omega arith in rw (round-above pdev c i got le') (h i le' lt) in
      let (r, run, log, counts) =
        find_loop_lem k (some d) (j + 1) (round pdev c) (omega arith) (omega arith) pos in
      let counted : to_int (j + 1) ≡ j + 1 = ground arith in
      (
        record r { log = entry d j ++ r.log },
        rw got (rw counted (rw run refl)),
        rw log (ap (λ lines. lines ++ listing k (d + 1) (j + 1)) (entry_lem d j)),
        λ i. counts i ∙ after-round k pdev c i got,
      )

  -- With at most 2 ^ 31 devices, and a reference held to each listed one, my_init ends, and logs each device once and in
  -- order: its number, its name, and the six registers that it reads of it, where a register of one byte that holds 128
  -- or more is logged as a negative number, 256 below what it holds, and every other register as what it holds. It leaves
  -- each listed device with one reference fewer than it found, and the others as they were: the loop's pci_dev_put drops
  -- a reference that the next pci_get_device drops as well.
  pub my_init-listing :
      (c : Counts)
      → b.devices ≤ 2 ^ 31
      → ((i : ℕ) → i < b.devices → 0 < c i)
      → (r : Run) × (my_init c ≡ some r)
        × (r.log ≡ listing b.devices 0 0)
        × ((i : ℕ) → r.counts i ≡ (if ltb i b.devices then c i - 1 else c i))
  unfolding my_init after
  my_init-listing c few h =
      let (r, run, log, counts) =
        find_loop_lem b.devices none 0 c (omega arith) (omega arith) (λ i le lt. h i lt) in
      let fuel : b.devices + 1 ≡ suc b.devices = omega arith in
      (r, rw fuel run, log, λ i. counts i ∙ ground arith)
