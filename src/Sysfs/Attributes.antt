-- ===== src/Sysfs/Attributes.antt =====
-- The show and store functions of kset_example.c, with the dispatch through `struct foo_attribute`;
-- kobject_example.c has the same functions over static variables.
use linux_foundation_embedde.Base.{
  ℕ, ◌≡◌, ◌≢◌, Bool, true, false, Option, none, some, arith, if◌then◌else◌,
}

-- The attributes of foo_default_attrs, by their names.
pub data Name : Type 0 where
  foo bar baz : Name

-- What a function returns: a count of bytes, or a negative error number.
pub data Return : Type 0 where
  returns : ℕ → Return
  error : ℕ → Return

-- `V` is the type `int`, and `Text` what the buffers hold. kstrtoint reads a number or returns an
-- error number, and sprintf writes one by the format "%d\n".
pub record Conversions : Type 1 where
  pub V : Type 0
  pub Text : Type 0
  pub kstrtoint : Text → Option V
  pub invalid : Text → ℕ
  pub sprintf : V → Text
  pub kstrtoint-sprintf : (v : V) → kstrtoint (sprintf v) ≡ some v

-- `strcmp(name, "baz") == 0`
abbrev pub is_baz : Name → Bool
is_baz baz = true
is_baz _ = false

module _ (c : Conversions) where
  open c use {V, Text, kstrtoint, invalid, sprintf, kstrtoint-sprintf}

  pub record FooObj : Type 0 where
    pub foo : V
    pub baz : V
    pub bar : V

  -- foo_show and foo_store.
  unfoldable pub foo_show : FooObj → Text
  foo_show o = sprintf o.foo

  store_foo : ℕ → ℕ → FooObj → Option V → Return × FooObj
  store_foo count e o none = (error e, o)
  store_foo count e o (some v) = (returns count, record o { foo = v })

  unfoldable pub foo_store : Text → ℕ → FooObj → Return × FooObj
  unfolding store_foo
  foo_store buf count o = store_foo count (invalid buf) o (kstrtoint buf)

  -- b_show and b_store, which tell "baz" from any other name.
  unfoldable pub b_show : Name → FooObj → Text
  b_show name o = sprintf (if is_baz name then o.baz else o.bar)

  store_b : Bool → ℕ → ℕ → FooObj → Option V → Return × FooObj
  store_b b count e o none = (error e, o)
  store_b true count e o (some v) = (returns count, record o { baz = v })
  store_b false count e o (some v) = (returns count, record o { bar = v })

  unfoldable pub b_store : Name → Text → ℕ → FooObj → Return × FooObj
  unfolding store_b
  b_store name buf count o = store_b (is_baz name) count (invalid buf) o (kstrtoint buf)

  -- foo_attr_show and foo_attr_store call the functions that __ATTR gave the attribute.
  unfoldable pub foo_attr_show : Name → FooObj → Text
  unfolding foo_show b_show
  foo_attr_show foo o = foo_show o
  foo_attr_show bar o = b_show bar o
  foo_attr_show baz o = b_show baz o

  unfoldable pub foo_attr_store : Name → Text → ℕ → FooObj → Return × FooObj
  unfolding foo_store b_store
  foo_attr_store foo buf count o = foo_store buf count o
  foo_attr_store bar buf count o = b_store bar buf count o
  foo_attr_store baz buf count o = b_store baz buf count o

  -- What a file shows after a number was stored in a file is that number if the files are the same,
  -- and what it showed before if they are not; the store returns the count of bytes.
  show-store :
      (n m : Name) (buf : Text) (count : ℕ) (o : FooObj) {v : V}
      → kstrtoint buf ≡ some v
      → m ≢ n
      → ((foo_attr_store n buf count o).0 ≡ returns count)
        × (foo_attr_show n (foo_attr_store n buf count o).1 ≡ sprintf v)
        × (foo_attr_show m (foo_attr_store n buf count o).1 ≡ foo_attr_show m o)
  unfolding foo_attr_show foo_attr_store
  show-store n m buf count o e h = ground arith

  -- Storing in a file what it shows changes nothing.
  store-show :
      (n : Name) (count : ℕ) (o : FooObj)
      → foo_attr_store n (foo_attr_show n o) count o ≡ (returns count, o)
  unfolding foo_attr_show foo_attr_store
  store-show foo count o = rw (kstrtoint-sprintf o.foo, store_foo)
  store-show bar count o = rw (kstrtoint-sprintf o.bar, store_b)
  store-show baz count o = rw (kstrtoint-sprintf o.baz, store_b)

  -- A text that is no number is refused with the error of kstrtoint, and changes nothing.
  store_invalid :
      (n : Name) (buf : Text) (count : ℕ) (o : FooObj)
      → kstrtoint buf ≡ none
      → foo_attr_store n buf count o ≡ (error (invalid buf), o)
  unfolding foo_attr_store
  store_invalid n buf count o e = ground arith
