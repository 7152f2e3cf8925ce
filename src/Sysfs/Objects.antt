-- ===== src/Sysfs/Objects.antt =====
-- How kset_example.c creates and destroys its objects, and kobject_example.c its one object.
use linux_foundation_embedde.Base.{ℕ, Bool, true, false, not, arith, if◌then◌else◌}
use linux_foundation_embedde.Kernel.Ledger.{
  acquire, release, operate, kobject, kset, Run, ◌>>=◌, ◌>>◌, return, call, ask, settle, Status,
  success, error, insmod_rmmod, IsBalanced,
}

-- The answers of kzalloc and kobject_init_and_add for one object.
pub record Answers : Type 0 where
  pub allocated : Bool
  pub added : Bool

-- The result says whether the pointer returned is not NULL. kobject_put drops the only reference,
-- at which foo_release frees the object.
unfoldable pub create_foo_obj : (name : ℕ) → Answers → Run Bool
create_foo_obj name a = do
  foo ← ask (acquire (kobject name)) a.allocated
  if not foo then return false else (do
    retval ← ask (operate (kobject name)) a.added
    if not retval then (do call (release (kobject name)); return false) else return true)

unfoldable pub destroy_foo_obj : (name : ℕ) → Run (Unit {0})
destroy_foo_obj name = call (release (kobject name))

-- The objects foo, bar and baz are 0, 1 and 2. -ENOMEM is 12, -EINVAL is 22.
unfoldable pub example_init :
    (kset_created : Bool) (foo bar baz : Answers) → Run (Status × Unit {0})
unfolding create_foo_obj destroy_foo_obj
example_init kset_created foo bar baz = do
  example_kset ← ask (acquire kset) kset_created
  if not example_kset then return (error 12, tt) else (do
    foo_obj ← create_foo_obj 0 foo
    if not foo_obj then (do call (release kset); return (error 22, tt)) else (do
      bar_obj ← create_foo_obj 1 bar
      if not bar_obj
          then (do destroy_foo_obj 0; call (release kset); return (error 22, tt))
          else (do
            baz_obj ← create_foo_obj 2 baz
            if not baz_obj
                then (do
                  destroy_foo_obj 1
                  destroy_foo_obj 0
                  call (release kset)
                  return (error 22, tt))
                else return (success, tt))))

unfoldable pub example_exit : Unit {0} → Run (Unit {0})
unfolding destroy_foo_obj
example_exit _ = do destroy_foo_obj 2; destroy_foo_obj 1; destroy_foo_obj 0; call (release kset)

-- Whichever of the seven kernel calls fails, loading and unloading leave nothing behind: the gotos
-- of the error paths destroy exactly the objects that were created.
pub kset-IsBalanced :
    (kset_created : Bool) (foo bar baz : Answers)
    → IsBalanced (insmod_rmmod (example_init kset_created foo bar baz) example_exit)
unfolding example_init example_exit settle
kset-IsBalanced kset_created foo bar baz = ground arith

-- kobject_example.c: one kobject and its group of attribute files, which kobject_put removes with
-- it. `created` and `grouped` are the answers of kobject_create_and_add and sysfs_create_group.
unfoldable pub kobject_init : (created grouped : Bool) (failure : ℕ) → Run (Status × Unit {0})
kobject_init created grouped failure = do
  example_kobj ← ask (acquire (kobject 0)) created
  if not example_kobj then return (error 12, tt) else (do
    retval ← ask (operate (kobject 0)) grouped
    if not retval
        then (do call (release (kobject 0)); return (error failure, tt))
        else return (success, tt))

unfoldable pub kobject_exit : Unit {0} → Run (Unit {0})
kobject_exit _ = call (release (kobject 0))

-- Whichever call fails, loading and unloading the single object leave nothing behind.
kobject-IsBalanced :
    (created grouped : Bool) (failure : ℕ)
    → IsBalanced (insmod_rmmod (kobject_init created grouped failure) kobject_exit)
unfolding kobject_init kobject_exit settle
kobject-IsBalanced created grouped failure = ground arith
