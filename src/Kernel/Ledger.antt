-- ===== src/Kernel/Ledger.antt =====
-- The kernel calls that acquire and release something for a driver module, and the ledger of what
-- it holds: the contract that each acquisition is given back once, and nothing else is.
use mathlib.Core.Logic.{ite}
use native.Mathlib.Decide.{ℕ_discrete}
use linux_foundation_embedde.Base.{
  ℕ, Bool, true, false, Option, none, some, List, [], ◌∷◌, ◌++◌, ◌≡◌,
}

-- What a module can hold. Blocks of memory and interrupt lines are told apart by a number.
pub data Resource : Type 0 where
  region cdev class device misc cache group kset firmware workqueue pool : Resource
  memory irq kobject probe thread netdev registration mapping coherent timer : ℕ → Resource

pub Resource-discrete : Discrete Resource
Resource-discrete = hlevel ℕ_discrete

-- A call with the kernel's answer: `true` is success, a pointer that is not NULL.
pub data Call : Type 0 where
  -- the call acquires the resource if it succeeds
  acquire : Resource → Bool → Call
  -- the call gives the resource back
  release : Resource → Call
  -- the call works on a resource that must be held, and answers
  operate : Resource → Bool → Call
  -- kfree, of the pointer that a kmalloc returned: NULL is let pass
  kfree : ℕ → Bool → Call

-- Removes a resource that is held.
pub drop : Resource → List Resource → Option (List Resource)
drop r [] = none
drop r (x ∷ held) =
    let rest = drop r held in
    ite (Resource-discrete r x) (some held) (elim rest [ none ↦ none | some l ↦ some (x ∷ l) ])

-- What is held after some calls; `none` when a call gives back what is not held, or works on it.
unfoldable pub settle : List Call → List Resource → Option (List Resource)
unfolding drop Resource-discrete ℕ_discrete
settle [] held = some held
settle (acquire r true ∷ calls) held = settle calls (r ∷ held)
settle (acquire r false ∷ calls) held = settle calls held
settle (release r ∷ calls) held = elim (drop r held) [ none ↦ none | some rest ↦ settle calls rest ]
settle (operate r _ ∷ calls) held = elim (drop r held) [ none ↦ none | some _ ↦ settle calls held ]
settle (kfree p true ∷ calls) held = elim (drop (memory p) held) [
  | none ↦ none
  | some rest ↦ settle calls rest
]
settle (kfree p false ∷ calls) held = settle calls held

-- What a function returns, beside the calls that it makes, in order.
abbrev pub Run {ℓ} : Type ℓ → Type ℓ
Run A = A × List Call

infixl 5 ◌>>=◌ ◌>>◌
abbrev pub ◌>>=◌ {ℓ κ} : {A : Type ℓ} {B : Type κ} → Run A → (A → Run B) → Run B
(a, calls) >>= f = let (b, later) = f a in (b, calls ++ later)

abbrev pub ◌>>◌ {ℓ} : {B : Type ℓ} → Run (Unit {0}) → Run B → Run B
(_, calls) >> (b, later) = (b, calls ++ later)

abbrev pub return {ℓ} : {A : Type ℓ} → A → Run A
return a = (a, [])

abbrev pub call : Call → Run (Unit {0})
call c = (tt, c ∷ [])

-- A call whose answer the function looks at or keeps.
abbrev pub ask : (Bool → Call) → Bool → Run Bool
ask c answer = (answer, c answer ∷ [])

-- What a function of the module returns: 0, or a negative error number.
pub data Status : Type 0 where
  success : Status
  error : ℕ → Status

abbrev pub is_success : Status → Bool
is_success success = true
is_success (error _) = false

-- insmod, and rmmod where insmod succeeded. `G` is the module's global variables.
abbrev pub insmod_rmmod {ℓ} : {G : Type ℓ} → Run (Status × G) → (G → Run (Unit {0})) → Run Status
insmod_rmmod ((success, globals), calls) exit =
    let (_, later) = exit globals in (success, calls ++ later)
insmod_rmmod ((error e, _), calls) exit = (error e, calls)

-- The module holds nothing at the end, and gave back nothing that it did not hold.
abbrev pub IsBalanced {ℓ} : {A : Type ℓ} → Run A → Type 0
IsBalanced (_, calls) = settle calls [] ≡ some []
