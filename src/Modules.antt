-- ===== src/Modules.antt =====
-- chapter_9_modules: dynamic_module_loading/lab_char_module1.c, a character driver whose open asks the kernel to load
-- lab_char_module2.c, which calls a function of the first one; and the pair of duplicate_modules (Modules.Pair).
pub mod Pair
pub mod Once
use linux_foundation_embedde.Base.{
  ℕ, suc, ◌+◌, ◌-◌, ◌<◌, ◌≡◌, ◌⊎◌, Bool, true, false, Option, none, some, if◌then◌else◌, to_int,
  arith, refl, Chain, Chain-invariant,
}
use linux_foundation_embedde.Kernel.Ledger.{Status, success}
use linux_foundation_embedde.CharDevice.{mycdrv_generic_open}

-- Which of the two modules are loaded; the open files of the first, and its count of opens; and how often the second one
-- printed its greeting and its farewell, and mod_fun its line.
pub record State : Type 0 where
  pub module1 : Bool
  pub module2 : Bool
  pub open_files : ℕ
  pub counter : ℕ
  pub hellos : ℕ
  pub voilas : ℕ
  pub goodbyes : ℕ

-- `none` is a jump into a module that is not in memory.
unfoldable pub mod_fun : State → Option State
mod_fun s = if s.module1 then some (record s { voilas = suc s.voilas }) else none

unfoldable pub my_init : State → Option State
unfolding mod_fun
my_init s = mod_fun (record s { hellos = suc s.hellos })

unfoldable pub my_exit : State → State
my_exit s = record s { goodbyes = suc s.goodbyes }

-- What the kernel does to load the second module: its init runs when it is in memory.
abbrev pub load : State → Option State
load s = my_init (record s { module2 = true })

-- request_module ("lab_char_module2"), by what is documented of it: a module that is loaded is left alone; one that is
-- not is loaded, or the call fails. It returns 0 or an error, which the driver only prints.
pub record Loader : Type 0 where
  pub request_module : State → ℕ × Option State
  pub loaded_stays : (s : State) → s.module2 ≡ true → (request_module s).1 ≡ some s
  pub loads_or_not :
      (s : State)
      → s.module2 ≡ false
      → ((request_module s).1 ≡ load s) ⊎ ((request_module s).1 ≡ some s)

opened : Option State → Option (Status × State)
opened none = none
opened (some s) =
    let (status, counter) = mycdrv_generic_open s.counter in
    some (status, record s { counter = counter; open_files = s.open_files + 1 })

module _ (l : Loader) where
  unfoldable pub mycdrv_open : State → Option (Status × State)
  unfolding opened
  mycdrv_open s = opened (l.request_module s).1

  -- The kernel removes a module only when no file of it is open and no other module uses it, and loads the second one only
  -- when it finds mod_fun.
  pub data Step : State → State → Type 0 where
    insmod1 : (s : State) → s.module1 ≡ false → Step s (record s { module1 = true; counter = 0 })
    insmod2 :
        (s : State) {t : State} → s.module1 ≡ true → s.module2 ≡ false → load s ≡ some t → Step s t
    open_node :
        (s : State) {c : Status} {t : State}
        → s.module1 ≡ true
        → mycdrv_open s ≡ some (c, t)
        → Step s t
    close_node :
        (s : State) → 0 < s.open_files → Step s (record s { open_files = s.open_files - 1 })
    rmmod1 :
        (s : State) → s.open_files ≡ 0 → s.module2 ≡ false → Step s (record s { module1 = false })
    rmmod2 : (s : State) → s.module2 ≡ true → Step s (my_exit (record s { module2 = false }))
