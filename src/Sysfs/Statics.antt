-- ===== src/Sysfs/Statics.antt =====
-- The show and store functions of kobject_example.c, over the static variables foo, baz and bar; and
-- the files that both examples make, as a user reads and writes them.
use linux_foundation_embedde.Base.{
  ℕ, ◌≡◌, Bool, Option, none, some, List, [], ◌∷◌, arith, refl, if◌then◌else◌,
}
use linux_foundation_embedde.Sysfs.Attributes
use linux_foundation_embedde.Sysfs.Attributes.{
  Name, foo, bar, baz, Return, returns, error, Conversions, FooObj, is_baz,
}

module _ (c : Conversions) where
  open c use {V, Text, kstrtoint, invalid, sprintf}

  -- One access to a file: a read, or a write of `count` bytes.
  pub data File : Type 0 where
    read : Name → File
    write : Name → Text → (count : ℕ) → File

  -- What the user gets: a text, or what the write returned.
  pub data Answer : Type 0 where
    shown : Text → Answer
    stored : Return → Answer

  -- The three variables. kstrtoint leaves its target alone when it fails.
  pub record Statics : Type 0 where
    pub foo : V
    pub baz : V
    pub bar : V

  unfoldable pub foo_show : Statics → Text
  foo_show s = sprintf s.foo

  read_foo : ℕ → ℕ → Statics → Option V → Return × Statics
  read_foo count e s none = (error e, s)
  read_foo count e s (some v) = (returns count, record s { foo = v })

  unfoldable pub foo_store : Text → ℕ → Statics → Return × Statics
  unfolding read_foo
  foo_store buf count s = read_foo count (invalid buf) s (kstrtoint buf)

  unfoldable pub b_show : Name → Statics → Text
  b_show name s = sprintf (if is_baz name then s.baz else s.bar)

  keep : Bool → ℕ → ℕ → Statics → Option V → Return × Statics
  keep b count e s none = (error e, s)
  keep b count e s (some v) =
      (returns count, if b then record s { baz = v } else record s { bar = v })

  unfoldable pub b_store : Name → Text → ℕ → Statics → Return × Statics
  unfolding keep
  b_store name buf count s = keep (is_baz name) count (invalid buf) s (kstrtoint buf)

  -- The functions that __ATTR gives each file.
  unfoldable pub show : Name → Statics → Text
  unfolding foo_show b_show
  show foo s = foo_show s
  show bar s = b_show bar s
  show baz s = b_show baz s

  unfoldable pub store : Name → Text → ℕ → Statics → Return × Statics
  unfolding foo_store b_store
  store foo buf count s = foo_store buf count s
  store bar buf count s = b_store bar buf count s
  store baz buf count s = b_store baz buf count s

  -- A run of accesses on the files of kobject_example.c, and on those of one object of kset_example.c:
  -- the answers, in order.
  unfoldable pub kobject_answers : List File → Statics → List Answer
  unfolding show store
  kobject_answers [] s = []
  kobject_answers (read name ∷ accesses) s = shown (show name s) ∷ kobject_answers accesses s
  kobject_answers (write name buf count ∷ accesses) s =
      let (answer, s') = store name buf count s in stored answer ∷ kobject_answers accesses s'

  unfoldable pub kset_answers : List File → FooObj c → List Answer
  unfolding Attributes.foo_attr_show Attributes.foo_attr_store
  kset_answers [] o = []
  kset_answers (read name ∷ accesses) o =
      shown (Attributes.foo_attr_show c name o) ∷ kset_answers accesses o
  kset_answers (write name buf count ∷ accesses) o =
      let (answer, o') = Attributes.foo_attr_store c name buf count o in
      stored answer ∷ kset_answers accesses o'

  -- The object of kset_example.c that holds what the variables hold.
  abbrev pub object : Statics → FooObj c
  object s = record { foo = s.foo; baz = s.baz; bar = s.bar }

  stored_alike :
      (name : Name) (buf : Text) (count : ℕ) (s : Statics)
      → Attributes.foo_attr_store c name buf count (object s)
        ≡ ((store name buf count s).0, object (store name buf count s).1)
  unfolding store Attributes.foo_attr_store
  stored_alike name buf count s = ground arith

  shown_alike :
      (name : Name) (s : Statics) → Attributes.foo_attr_show c name (object s) ≡ show name s
  unfolding show Attributes.foo_attr_show
  shown_alike name s = ground arith

  -- A user who reads and writes the files cannot tell the two examples apart: on every sequence of
  -- accesses the answers are the same, errors included, when the object starts with the values of the
  -- variables.
  pub examples_agree :
      (accesses : List File) (s : Statics)
      → kobject_answers accesses s ≡ kset_answers accesses (object s)
  unfolding kobject_answers kset_answers
  examples_agree [] s = refl
  examples_agree (read name ∷ accesses) s = rw (shown_alike name s, examples_agree accesses s)
  examples_agree (write name buf count ∷ accesses) s =
      rw (stored_alike name buf count s, examples_agree accesses (store name buf count s).1)
