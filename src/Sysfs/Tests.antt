-- ===== src/Sysfs/Tests.antt =====
-- The theorems on the sysfs examples at concrete inputs: texts that are numbers.
use linux_foundation_embedde.Base.{[], ◌∷◌, none, List, ℕ, ◌≡◌, true, false, Option, some, refl}
use linux_foundation_embedde.Kernel.Ledger.{IsBalanced, insmod_rmmod}
use linux_foundation_embedde.Sysfs.Attributes.{foo, baz, Conversions, FooObj}
use linux_foundation_embedde.Sysfs.Objects
use linux_foundation_embedde.Sysfs.Statics

-- A text is `some n` for the number n, or `none` for anything else.
abbrev plain : Conversions
plain = record {
  V = ℕ;
  Text = Option ℕ;
  kstrtoint = λ t. t;
  invalid = λ t. 22;
  sprintf = λ v. some v;
  kstrtoint-sprintf = λ v. refl;
}

abbrev object : FooObj plain
object = record { foo = 1; baz = 2; bar = 3 }

abbrev good : Objects.Answers
good = record { allocated = true; added = true }

kset-IsBalanced_example : IsBalanced (
    insmod_rmmod
      (Objects.example_init true good good (record good { added = false }))
      Objects.example_exit)
kset-IsBalanced_example = Objects.kset-IsBalanced true good good (record good { added = false })

-- A write of 9 to the file baz, a write of a text that is no number, and reads of two files.
abbrev accesses : List (Statics.File plain)
accesses =
    Statics.File.write baz (some 9) 2
    ∷ Statics.File.write foo none 1
    ∷ Statics.File.read baz
    ∷ Statics.File.read foo
    ∷ []

abbrev variables : Statics.Statics plain
variables = record { foo = 1; baz = 2; bar = 3 }

examples_agree_example :
    Statics.kobject_answers plain accesses variables ≡ Statics.kset_answers plain accesses object
examples_agree_example = Statics.examples_agree plain accesses variables
