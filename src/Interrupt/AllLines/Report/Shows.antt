-- ===== src/Interrupt/AllLines/Report/Shows.antt =====
-- What lab_all_getinterrupts.c shows of the counts of lab_all_interrupt.h.
use native.Mathlib.Decide.{ℕ_discrete}
use linux_foundation_embedde.Base.{
  ℕ, zero, suc, ◌+◌, ◌*◌, ◌/◌, ◌%◌, ◌^◌, ◌≤◌, ◌<◌, ◌≡◌, Bool, true, List, [], ◌∷◌, arith, refl, ◌∙◌,
  ap, subst, sym, ltb, ◌&&◌, ◌⊎◌, inl, inr, Bool-cases, ◌↔◌, Chain, Chain-invariant,
}
use linux_foundation_embedde.Kernel.UserAccess.{Memory, UserAccess}
use linux_foundation_embedde.Kernel.FullAccess.{IsFull, to_full_bytes}
use linux_foundation_embedde.Kernel.Words.{store32, load32-store32, load32_ext}
use linux_foundation_embedde.CharDevice.{ok, mycdrv_generic_read}
use linux_foundation_embedde.CharDevice.Bounds.{IsValid, read-eq}
use linux_foundation_embedde.Interrupt.AllLines.{
  State, max_irqs, Step, interrupt, tasklet, my_interrupt, t_fun, get_irqs, get_irqs_lem,
  get_irqs_zero, unloaded,
}
use linux_foundation_embedde.Interrupt.AllLines.Freeing.{Inv, Step-Inv, get_irqs-Inv}
use linux_foundation_embedde.Interrupt.AllLines.Report.{
  nb, byte_of, ramdisk, disk, word, Row, rows, printed, getinterrupts,
}

disk-IsValid : (s : State) (rest : Memory) → IsValid (disk s rest)
disk-IsValid s rest = record { whole = refl; small = omega arith }

byte_at :
    (words : ℕ → ℕ) (j k : ℕ) → k < 4 → byte_of words (4 * j + k) ≡ store32 (λ _. 0) (words j) k
byte_at words j k h =
    let e : (4 * j + k) / 4 ≡ j = omega arith in
    let r : (4 * j + k) % 4 ≡ k = omega arith in rw (e, r)

word-byte_of : (words : ℕ → ℕ) (j : ℕ) → words j < 2 ^ 32 → word (byte_of words) j ≡ words j
word-byte_of words j h =
    load32_ext _ (store32 (λ _. 0) (words j)) (byte_at words j)
    ∙ load32-store32 (λ _. 0) (words j) h

rows_ext :
    (a b a' b' : ℕ → ℕ) (k j : ℕ)
    → ((i : ℕ) → j ≤ i → i < j + k → a i ≡ a' i)
    → ((i : ℕ) → j ≤ i → i < j + k → b i ≡ b' i)
    → rows a b k j ≡ rows a' b' k j
unfolding rows
rows_ext a b a' b' zero j f g = refl
rows_ext a b a' b' (suc k) j f g =
    rw
      (
        f j (omega arith) (omega arith),
        g j (omega arith) (omega arith),
        rows_ext a b a' b' k (suc j) (λ i p q. f i (omega arith) (omega arith))
            (λ i p q. g i (omega arith) (omega arith)),
      )
      refl

-- The row is one of those printed.
abbrev pub IsIn : Row → List Row → Type 0
IsIn row [] = ⊥
IsIn row (first ∷ rest) = (row ≡ first) ⊎ IsIn row rest

-- The lines of the rows rise, and none is below `j`.
abbrev pub InOrder : (j : ℕ) → List Row → Type 0
InOrder j [] = Unit {0}
InOrder j (row ∷ rest) = (j ≤ row.line) × InOrder (suc row.line) rest

-- What a row should say: its line is one that the kernel granted, that had had an interrupt when `s` was read, with a
-- count that is positive as an `int`; and it shows that count, and the tasklet's count when `s'` was read.
pub record IsCounted (granted : ℕ → Bool) (s s' : State) (row : Row) : Type 0 where
  pub inside : row.line < max_irqs
  pub taken : granted row.line ≡ true
  pub some : 0 < s.interrupts row.line
  pub positive : s.interrupts row.line < 2 ^ 31
  pub first : row.interrupts ≡ s.interrupts row.line
  pub second : row.bhs ≡ s'.bhs row.line

InOrder-le : (j k : ℕ) (l : List Row) → j ≤ k → InOrder k l → InOrder j l
InOrder-le j k [] h o = tt
InOrder-le j k (row ∷ rest) h (le, o) = (omega arith, o)

rows-InOrder : (a b : ℕ → ℕ) (k j : ℕ) → InOrder j (rows a b k j)
unfolding rows
rows-InOrder a b zero j = tt
rows-InOrder a b (suc k) j =
    let rest = rows-InOrder a b k (suc j) in
    let skip = InOrder-le j (suc j) (rows a b k (suc j)) (omega arith) rest in
    let keep : InOrder j (record { line = j; interrupts = a j; bhs = b j } ∷ rows a b k (suc j)) =
      (omega arith, rest) in
    elim (Bool-cases (ltb 0 (a j) && ltb (a j) (2 ^ 31))) [
      | inl shown ↦ rw shown keep
      | inr hidden ↦ rw hidden skip
    ]

-- What the loop prints from line `j` on, in words of the arrays.
record IsShown (a b : ℕ → ℕ) (k j : ℕ) (row : Row) : Type 0 where
  above : j ≤ row.line
  below : row.line < j + k
  some : 0 < a row.line
  positive : a row.line < 2 ^ 31
  first : row.interrupts ≡ a row.line
  second : row.bhs ≡ b row.line

widen : (a b : ℕ → ℕ) (k j : ℕ) (row : Row) → IsShown a b k (suc j) row → IsShown a b (suc k) j row
widen a b k j row v = record {
  above = omega (arith, v.above);
  below = omega (arith, v.below);
  some = v.some;
  positive = v.positive;
  first = v.first;
  second = v.second;
}

rows_to : (a b : ℕ → ℕ) (k j : ℕ) (row : Row) → IsIn row (rows a b k j) → IsShown a b k j row
unfolding rows
rows_to a b zero j row m = absurd m
rows_to a b (suc k) j row m = elim (Bool-cases (ltb 0 (a j) && ltb (a j) (2 ^ 31))) [
  | inl shown ↦ elim (rw shown at m) [
    | inl e ↦ subst (IsShown a b (suc k) j) (sym e) (record {
      above = omega arith;
      below = omega arith;
      some = ground (arith, shown);
      positive = ground (arith, shown);
      first = refl;
      second = refl;
    })
    | inr later ↦ widen a b k j row (rows_to a b k (suc j) row later)
  ]
  | inr hidden ↦ widen a b k j row (rows_to a b k (suc j) row (rw hidden at m))
]

rows_from : (a b : ℕ → ℕ) (k j : ℕ) (row : Row) → IsShown a b k j row → IsIn row (rows a b k j)
unfolding rows
rows_from a b zero j row v = absurd (omega (arith, v.above, v.below))
rows_from a b (suc k) j row v = elim (ℕ_discrete row.line j) [
  | yes e ↦
      let shown : ltb 0 (a j) && ltb (a j) (2 ^ 31) ≡ true =
        subst (λ l. ltb 0 (a l) && ltb (a l) (2 ^ 31) ≡ true) e
          (ground (arith, v.some, v.positive)) in
      rw shown (
        inl λ i. record {
          line = e i;
          interrupts = (v.first ∙ ap a e) i;
          bhs = (v.second ∙ ap b e) i;
        })
  | no ne ↦
      let later = rows_from a b k (suc j) row (record {
        above = omega (arith, v.above);
        below = omega (arith, v.below);
        some = v.some;
        positive = v.positive;
        first = v.first;
        second = v.second;
      }) in
      elim (Bool-cases (ltb 0 (a j) && ltb (a j) (2 ^ 31))) [
        | inl shown ↦ rw shown (inr later)
        | inr hidden ↦ rw hidden later
      ]
]

-- What holds from loading on: the lines held are those that were granted, and the counts are words.
record Counting (granted : ℕ → Bool) (s : State) : Type 0 where
  inv : Inv granted 0 s
  interrupts : (i : ℕ) → s.interrupts i < 2 ^ 32
  bhs : (i : ℕ) → s.bhs i < 2 ^ 32

Step-Counting :
    (granted : ℕ → Bool) (s t : State) → Step s t → Counting granted s → Counting granted t
unfolding my_interrupt t_fun
Step-Counting granted s t (interrupt irq _ h) v = record {
  inv = Step-Inv granted s t (interrupt irq s h) v.inv;
  interrupts = λ i. ground (arith, v.interrupts i);
  bhs = v.bhs;
}
Step-Counting granted s t (tasklet irq _) v = record {
  inv = Step-Inv granted s t (tasklet irq s) v.inv;
  interrupts = v.interrupts;
  bhs = λ i. ground (arith, v.bhs i);
}

get_irqs-Counting : (granted : ℕ → Bool) → Counting granted (get_irqs granted max_irqs 0 unloaded)
get_irqs-Counting granted = record {
  inv = get_irqs-Inv granted;
  interrupts = λ i. ground (arith, get_irqs_lem granted max_irqs 0 unloaded i);
  bhs = λ i. ground (arith, get_irqs_zero granted max_irqs 0 unloaded i refl refl);
}

-- A count that is positive as an `int` is not the flag of a line that was not granted.
counted-granted :
    (granted : ℕ → Bool) (s : State) (i : ℕ)
    → Counting granted s
    → i < max_irqs
    → s.interrupts i < 2 ^ 31
    → granted i ≡ true
counted-granted granted s i v lt positive = elim (Bool-cases (granted i)) [
  | inl yes' ↦ yes'
  | inr no' ↦ absurd (omega (arith, v.inv.flagged i lt no'))
]

rows-IsCounted :
    (granted : ℕ → Bool) (s s' : State)
    → Counting granted s
    → (row : Row) → IsIn row (rows s.interrupts s'.bhs max_irqs 0) ↔ IsCounted granted s s' row
rows-IsCounted granted s s' v row = (
  λ m.
      let shown = rows_to s.interrupts s'.bhs max_irqs 0 row m in
      record {
        inside = shown.below;
        taken = counted-granted granted s row.line v shown.below shown.positive;
        some = shown.some;
        positive = shown.positive;
        first = shown.first;
        second = shown.second;
      },
  λ c. rows_from s.interrupts s'.bhs max_irqs 0 row (record {
    above = omega arith;
    below = c.inside;
    some = c.some;
    positive = c.positive;
    first = c.first;
    second = c.second;
  }),
)

module _ (u : UserAccess) (full : IsFull u) where
  read_first :
      (s : State) (rest buf : Memory)
      → (m : Memory) × (mycdrv_generic_read u (disk s rest) buf nb 0
          ≡ ok (record { nbytes = nb; pos = nb; bytes = m }))
        × ((i : ℕ) → i < nb → m i ≡ byte_of s.interrupts i)
  read_first s rest buf =
      let v = disk-IsValid s rest in
      (
        (u.copy_to_user buf (ramdisk s rest) 0 nb).1,
        read-eq u v buf nb 0 (omega arith) (omega arith)
            ∙ rw (full.to_full buf (ramdisk s rest) 0 nb) refl,
        λ i h. to_full_bytes u full buf (ramdisk s rest) 0 nb i ∙ ground arith,
      )

  read_second :
      (s : State) (rest buf : Memory)
      → (m : Memory) × (mycdrv_generic_read u (disk s rest) buf nb nb
          ≡ ok (record { nbytes = nb; pos = 2 * nb; bytes = m }))
        × ((i : ℕ) → i < nb → m i ≡ byte_of s.bhs i)
  read_second s rest buf =
      let v = disk-IsValid s rest in
      (
        (u.copy_to_user buf (ramdisk s rest) nb nb).1,
        read-eq u v buf nb nb (omega arith) (omega arith)
            ∙ rw (full.to_full buf (ramdisk s rest) nb nb) refl,
        λ i h. to_full_bytes u full buf (ramdisk s rest) nb nb i ∙ ground arith,
      )

  word_ext :
      (m : Memory) (words : ℕ → ℕ) (j : ℕ)
      → ((i : ℕ) → i < nb → m i ≡ byte_of words i)
      → words j < 2 ^ 32
      → j < max_irqs
      → word m j ≡ words j
  word_ext m words j e h lt =
      load32_ext _ (λ i. byte_of words (4 * j + i)) (λ i k. e (4 * j + i) (omega arith))
      ∙ word-byte_of words j h

  getinterrupts_shows :
      (s s' : State) (rest rest' interrupts bhs : Memory)
      → ((i : ℕ) → s.interrupts i < 2 ^ 32)
      → ((i : ℕ) → s'.bhs i < 2 ^ 32)
      → getinterrupts u true (disk s rest) (disk s' rest') interrupts bhs
        ≡ ok (printed (rows s.interrupts s'.bhs max_irqs 0))
  unfolding getinterrupts
  getinterrupts_shows s s' rest rest' interrupts bhs a b =
      let (m, e, f) = read_first s rest interrupts in
      let (n, e', g) = read_second s' rest' bhs in
      rw (e, e')
        (ap (λ r. ok (printed r))
          (rows_ext _ _ _ _ max_irqs 0 (λ i p q. word_ext m s.interrupts i f (a i) q)
            (λ i p q. word_ext n s'.bhs i g (b i) q)))

  -- The program, when the node could be opened and its buffers can be written, reads the state `s` of the driver and
  -- later the state `s'`: whatever interrupts and tasklets came since loading and between the two reads, it prints rows in
  -- the order of their lines, each line once at most, and a row is printed exactly if its line is one that the kernel
  -- granted, with a count of interrupts at the first read that is positive as an `int`, and if it shows that count and
  -- then the tasklet's count at the second read.
  pub report_shows_counts :
      (granted : ℕ → Bool) {s s' : State}
      → Chain Step (get_irqs granted max_irqs 0 unloaded) s
      → Chain Step s s'
      → (rest rest' interrupts bhs : Memory) (row : Row)
      → (shown : List Row) × (getinterrupts u true (disk s rest) (disk s' rest') interrupts bhs
          ≡ ok (printed shown))
        × InOrder 0 shown
        × (IsIn row shown ↔ IsCounted granted s s' row)
  report_shows_counts granted {s} {s'} c c' rest rest' interrupts bhs row =
      let v =
        Chain-invariant (Counting granted) (Step-Counting granted) c (get_irqs-Counting granted) in
      let w = Chain-invariant (Counting granted) (Step-Counting granted) c' v in
      (
        rows s.interrupts s'.bhs max_irqs 0,
        getinterrupts_shows s s' rest rest' interrupts bhs v.interrupts w.bhs,
        rows-InOrder s.interrupts s'.bhs max_irqs 0,
        rows-IsCounted granted s s' v row,
      )
