-- ===== src/MemoryLimits.antt =====
-- The modules of chapter_10_memory that ask for larger and larger blocks: lab_maxmem.c and
-- lab_maxvmalloc.c; lab_app_wastemem.c is in MemoryLimits.Wasted.
pub mod Wasted
mod Tests
use linux_foundation_embedde.Base.{
  ℕ, zero, suc, ◌+◌, ◌*◌, ◌^◌, ◌≤◌, ◌<◌, ◌≡◌, Bool, true, false, inl, inr, Bool-cases, Option, none,
  some, List, [], ◌∷◌, ◌++◌, length, ltb, leb, if◌then◌else◌, to_int, arith, refl, sym, ◌∙◌, ap,
}
use native.Mathlib.Omega.{pow_step}
use native.Mathlib.Nat.{pow-le-pow_right, mul_assoc}
use mathlib.Core.List.{append-nil}
use linux_foundation_embedde.Kernel.Ledger.{Call, acquire, release, memory, settle, Resource}

abbrev pub page_size : ℕ
page_size = 4096

-- One block asked for: its order, and its size as the `int` that the loop keeps.
pub record Request : Type 0 where
  pub order : ℕ
  pub size : ℕ

-- Either loop of my_init in lab_maxmem.c, with the rounds left: the requests made, and the calls.
-- `granted` is the kernel's answer to the request of an order; the loop breaks at the first that
-- fails. A block has its order as its number.
unfoldable pub max_loop : (granted : ℕ → Bool) → (rounds order size : ℕ) → List Request × List Call
max_loop granted zero order size = ([], [])
max_loop granted (suc k) order size =
    let (requests, calls) = max_loop granted k (suc order) (to_int (size * 2)) in
    let first : Request = record { order = order; size = size } in
    if granted order
    then (first ∷ requests, acquire (memory order) true ∷ release (memory order) ∷ calls)
    else (first ∷ [], acquire (memory order) false ∷ [])

-- my_init: `pages` answers __get_free_pages, and `blocks` kmalloc; both loops begin with one page.
unfoldable pub my_init :
    (max_order : ℕ) (pages blocks : ℕ → Bool) → List Request × List Request × List Call
my_init max_order pages blocks =
    let (page_requests, page_calls) = max_loop pages (max_order + 1) 0 page_size in
    let (block_requests, block_calls) = max_loop blocks (max_order + 1) 0 page_size in
    (page_requests, block_requests, page_calls ++ block_calls)

-- A block of `size` bytes that was got and given back, before the rest.
prepend : (size : ℕ) → Option (List ℕ × List Call) → Option (List ℕ × List Call)
prepend size none = none
prepend size (some (sizes, calls)) =
    some (size ∷ sizes, acquire (memory size) true ∷ release (memory size) ∷ calls)

-- The loop of my_init in lab_maxvmalloc.c, on fuel: the sizes asked for, in bytes, and the calls, or
-- `none` when the fuel runs out. `granted` is the answer of vmalloc for a size, and `limit` is
-- `mem * MB`. A block has its size as its number.
unfoldable pub vmalloc_loop :
    (granted : ℕ → Bool) → (fuel size limit : ℕ) → Option (List ℕ × List Call)
unfolding prepend
vmalloc_loop granted zero size limit = none
vmalloc_loop granted (suc fuel) size limit =
    let rest = vmalloc_loop granted fuel (size * 2) limit in
    if leb size limit
    then (if granted size
        then prepend size rest
        else some (size ∷ [], acquire (memory size) false ∷ []))
    else some ([], [])

abbrev pub mb : ℕ
mb = 1048576

-- my_init of lab_maxvmalloc.c, with fuel for ten rounds.
unfoldable pub vmalloc_init : (granted : ℕ → Bool) → (mem : ℕ) → Option (List ℕ × List Call)
vmalloc_init granted mem = vmalloc_loop granted 10 (4 * mb) (mem * mb)

-- The orders rise by one from the first on, each with the size of as many doubled pages.
abbrev pub AreDoubling : ℕ → List Request → Type 0
AreDoubling order [] = Unit {0}
AreDoubling order (r ∷ rs) =
    (r.order ≡ order) × (r.size ≡ page_size * 2 ^ order) × AreDoubling (suc order) rs

max_loop_doubles :
    (granted : ℕ → Bool) (k order size : ℕ)
    → order + k ≤ 19
    → size ≡ page_size * 2 ^ order
    → AreDoubling order (max_loop granted k order size).0
unfolding max_loop
max_loop_doubles granted zero order size h e = tt
max_loop_doubles granted (suc k) order size h e =
    let p : 2 ^ order ≤ 2 ^ 18 =
      pow-le-pow_right {n = 2} (omega arith) {i = order} {j = 18} (omega arith) in
    let next : to_int (size * 2) ≡ page_size * 2 ^ suc order = omega (arith, pow_step 2 order) in
    let ih = max_loop_doubles granted k (suc order) (to_int (size * 2)) (omega arith) next in
    elim (Bool-cases (granted order)) [
      | inl yes_here ↦ rw yes_here (refl, e, ih)
      | inr no_here ↦ rw no_here (refl, e, tt)
    ]

-- Whatever is held, the calls of a loop give back what they got.
settle-max_loop :
    (granted : ℕ → Bool) (k order size : ℕ) (rest : List Call) (held : List Resource)
    → settle ((max_loop granted k order size).1 ++ rest) held ≡ settle rest held
unfolding max_loop settle
settle-max_loop granted zero order size rest held = refl
settle-max_loop granted (suc k) order size rest held =
    ground (arith, settle-max_loop granted k (suc order) (to_int (size * 2)) rest held)

-- Both loops ask for 1, 2, 4, … pages, each `int` size being that many bytes, up to the first
-- failure; and whatever the kernel answers, all that was got is given back. The kernel's MAX_ORDER is
-- 18 at most, or the size would overflow.
maxmem_doubles :
    (max_order : ℕ) (pages blocks : ℕ → Bool)
    → max_order ≤ 18
    → let (page_requests, block_requests, calls) = my_init max_order pages blocks in
      (AreDoubling 0 page_requests) × (AreDoubling 0 block_requests) × (settle calls [] ≡ some [])
unfolding my_init settle
maxmem_doubles max_order pages blocks h = (
  max_loop_doubles pages (max_order + 1) 0 page_size (omega arith) refl,
  max_loop_doubles blocks (max_order + 1) 0 page_size (omega arith) refl,
  settle-max_loop pages (max_order + 1) 0 page_size (max_loop blocks (max_order + 1) 0 page_size).1
        []
      ∙ rw append-nil at (settle-max_loop blocks (max_order + 1) 0 page_size [] []),
)

-- The sizes double from `size` on, and none is above the limit.
abbrev pub UpTo : (size limit : ℕ) → List ℕ → Type 0
UpTo size limit [] = Unit {0}
UpTo size limit (a ∷ l) = (a ≡ size) × (a ≤ limit) × UpTo (size * 2) limit l

-- The loop ends with such sizes, and whatever the module holds, it holds the same afterwards.
abbrev pub DoublesUpTo : (size limit : ℕ) → Option (List ℕ × List Call) → Type 0
DoublesUpTo size limit o =
    (sizes : List ℕ) × (calls : List Call) × (o ≡ some (sizes, calls))
    × UpTo size limit sizes
    × ((held : List Resource) → settle calls held ≡ some held)

vmalloc_loop_total :
    (granted : ℕ → Bool) (k size limit : ℕ)
    → limit < size * 2 ^ k
    → DoublesUpTo size limit (vmalloc_loop granted (suc k) size limit)
unfolding vmalloc_loop settle
vmalloc_loop_total granted zero size limit h = ([], [], ground arith, tt, λ held. refl)
vmalloc_loop_total granted (suc k) size limit h =
    let e : size * 2 * 2 ^ k ≡ size * 2 ^ suc k =
      mul_assoc size 2 (2 ^ k) ∙ ap (λ (t : ℕ). size * t) (sym (pow_step 2 k)) in
    let next : limit < size * 2 * 2 ^ k = omega (arith, e) in
    let (l, calls, e', up, even) = vmalloc_loop_total granted k (size * 2) limit next in
    elim (Bool-cases (leb size limit)) [
      | inl fits ↦ elim (Bool-cases (granted size)) [
        | inl got ↦ (
          size ∷ l,
          acquire (memory size) true ∷ release (memory size) ∷ calls,
          ground arith,
          (refl, ground arith, up),
          λ held. ground (arith, even held),
        )
        | inr refused ↦ (
          size ∷ [],
          acquire (memory size) false ∷ [],
          ground arith,
          (refl, ground arith, tt),
          λ held. refl,
        )
      ]
      | inr over ↦ ([], [], ground arith, tt, λ held. refl)
    ]

-- The loop ends, whatever vmalloc answers and for every `mem` below 2048, from which on `mem * MB` is
-- no `int`: it asks for sizes that double from 4 MB on, none of them above `mem` MB, and gives all
-- back that it got.
pub vmalloc_ends :
    (granted : ℕ → Bool) (mem : ℕ)
    → mem < 2048
    → DoublesUpTo (4 * mb) (mem * mb) (vmalloc_init granted mem)
unfolding vmalloc_init
vmalloc_ends granted mem h = vmalloc_loop_total granted 9 (4 * mb) (mem * mb) (omega arith)
