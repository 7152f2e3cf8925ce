-- ===== src/Loading/UioTest.antt =====
-- chapter_23_deferrable_functions/lab_uio_api_test.c: a program that reads the interrupts from the UIO device.
use linux_foundation_embedde.Base.{
  ℕ, zero, suc, ◌+◌, ◌≡◌, ◌≢◌, Bool, not, Option, none, some, List, [], ◌∷◌, if◌then◌else◌, arith,
}

-- The program has ended, or the fuel has; with what it printed.
pub data Outcome : Type 0 where
  exits runs_on : List ℕ → Outcome

before : ℕ → Outcome → Outcome
before n (exits l) = exits (n ∷ l)
before n (runs_on l) = runs_on (n ∷ l)

after_read : Option ℕ → Outcome → Outcome
unfolding before
after_read none rest = exits []
after_read (some n) rest = before n rest

-- The loop on fuel, from the `round`-th read on. `read round count` is what the UIO core answers to a read of `count`
-- bytes, `none` an error; `long` is sizeof (nint).
unfoldable pub read_loop : (read : (round count : ℕ) → Option ℕ) (long fuel round : ℕ) → Outcome
unfolding after_read
read_loop read long zero round = runs_on []
read_loop read long (suc fuel) round =
    let rest = read_loop read long fuel (round + 1) in after_read (read round long) rest

unfoldable pub main :
    (opened : Bool) (read : (round count : ℕ) → Option ℕ) (long fuel : ℕ) → Outcome
unfolding read_loop
main opened read long fuel = if not opened then exits [] else read_loop read long fuel 0

-- The UIO core answers to reads of 4 bytes only. Where an `unsigned long` has another size, as on a machine of 64 bits,
-- the program ends at its first read and prints nothing, whatever interrupts came.
long_read_ends :
    (opened : Bool) (read : (round count : ℕ) → Option ℕ) (long fuel : ℕ)
    → ((round count : ℕ) → count ≢ 4 → read round count ≡ none)
    → long ≢ 4
    → main opened read long (suc fuel) ≡ exits []
unfolding main
long_read_ends opened read long fuel only differs = ground (arith, only 0 long differs)
