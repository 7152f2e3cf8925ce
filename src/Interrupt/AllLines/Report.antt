-- ===== src/Interrupt/AllLines/Report.antt =====
-- lab_all_getinterrupts.c of chapter_23_deferrable_functions, the program that shows what the drivers
-- on all lines have counted, with mycdrv_read of lab_all_interrupt.h. The two arrays lie one behind the
-- other in the RAM disk, as get_irqs sets the pointers.
pub mod Shows
use linux_foundation_embedde.Base.{
  ℕ, zero, suc, ◌+◌, ◌-◌, ◌*◌, ◌/◌, ◌%◌, ◌^◌, ◌≤◌, ◌<◌, ◌≡◌, Bool, true, List, [], ◌∷◌, ltb, ◌&&◌,
  ◌==◌, not, if◌then◌else◌, arith, refl, ◌∙◌, ap, Chain, Chain-invariant,
}
use linux_foundation_embedde.Kernel.UserAccess.{Memory, UserAccess}
use linux_foundation_embedde.Kernel.FullAccess.{IsFull, to_full_bytes}
use linux_foundation_embedde.Kernel.Words.{load32, store32, load32-store32, load32_ext}
use linux_foundation_embedde.CharDevice.{Access, ok, Disk, mycdrv_generic_read}
use linux_foundation_embedde.Device.Files.{◌>>=◌}
use linux_foundation_embedde.CharDevice.Bounds.{IsValid, read-eq}
use linux_foundation_embedde.Interrupt.AllLines.{
  State, max_irqs, Step, interrupt, tasklet, my_interrupt, t_fun, get_irqs, get_irqs_lem,
  get_irqs_zero, unloaded,
}
use linux_foundation_embedde.Interrupt.AllLines.Freeing.{Inv, Step-Inv, get_irqs-Inv}

-- NB of the program and NCOPY of the driver.
abbrev pub nb : ℕ
nb = 1024

-- Byte `i` of an array of words.
abbrev pub byte_of : (ℕ → ℕ) → Memory
byte_of words i = store32 (λ _. 0) (words (i / 4)) (i % 4)

-- The RAM disk, a page: `interrupts` from its start on, `bhs` behind it, and then what kmalloc left.
abbrev pub ramdisk : State → (rest : Memory) → Memory
ramdisk s rest i =
    if ltb i nb
    then byte_of s.interrupts i
    else if ltb i (2 * nb)
    then byte_of s.bhs (i - nb)
    else rest i

abbrev pub disk : State → (rest : Memory) → Disk
disk s rest = record { bytes = ramdisk s rest; allocated = 4096; ramdisk_size = 4096 }

-- Element `j` of an array of the program.
abbrev pub word : Memory → ℕ → ℕ
word m j = load32 (λ i. m (4 * j + i))

-- A line that the program prints: `j`, `interrupts[j]` and `bhs[j]`.
pub record Row : Type 0 where
  pub line : ℕ
  pub interrupts : ℕ
  pub bhs : ℕ

-- The loop of the program, with the rounds left; `interrupts[j] > 0` is a test of an `int`.
unfoldable pub rows : (interrupts bhs : ℕ → ℕ) → (rounds j : ℕ) → List Row
rows interrupts bhs zero j = []
rows interrupts bhs (suc k) j =
    let rest = rows interrupts bhs k (suc j) in
    let row : Row = record { line = j; interrupts = interrupts j; bhs = bhs j } in
    if ltb 0 (interrupts j) && ltb (interrupts j) (2 ^ 31) then row ∷ rest else rest

-- How the program ends: by one of its messages of failure, or with what it printed.
pub data Report : Type 0 where
  opening_device_node : Report
  reading_interrupts : Report
  reading_bhs : Report
  printed : List Row → Report

-- The program: `opened` is whether open succeeds, and the blocks are those that malloc gave. The
-- driver may count between the two reads: `d` is the disk at the first, `d'` at the second.
unfoldable pub getinterrupts :
    UserAccess → (opened : Bool) (d d' : Disk) (interrupts bhs : Memory) → Access Report
getinterrupts u opened d d' interrupts bhs = if not opened then ok opening_device_node else (do
  first ← mycdrv_generic_read u d interrupts nb 0
  if not (first.nbytes == nb) then ok reading_interrupts else (do
    second ← mycdrv_generic_read u d' bhs nb first.pos
    if not (second.nbytes == nb)
        then ok reading_bhs
        else ok (printed (rows (word first.bytes) (word second.bytes) max_irqs 0))))
