-- ===== src/CharDrivers/Cache.antt =====
-- chapter_11_character_drivers/todo/lab_cache.c: a RAM disk that is allocated from a slab cache at
-- each open, in one global pointer, and freed at each release.
use linux_foundation_embedde.Base.{
  ℕ, ◌*◌, suc, Bool, true, false, not, Option, none, some, List, ◌∷◌, ◌≡◌, if◌then◌else◌, arith,
  ltb,
}
use linux_foundation_embedde.Kernel.Ledger.{
  acquire, release, operate, region, cdev, class, device, cache, Run, ◌>>=◌, ◌>>◌, return, call,
  ask, Status, success, error, insmod_rmmod, IsBalanced, settle,
}
use linux_foundation_embedde.CharDrivers.Blocks.{free, AllBelow, free-fresh, AllBelow-suc}

-- The global `ramdisk` (`none` is NULL), the live objects of the cache, and the next that it gives.
pub record State : Type 0 where
  pub ramdisk : Option ℕ
  pub live : List ℕ
  pub next : ℕ

-- `allocated` is the answer of kmem_cache_alloc. -ENOMEM is 12.
unfoldable pub mycdrv_open : Bool → State → Status × State
mycdrv_open false s = (error 12, record s { ramdisk = none })
mycdrv_open true s =
    (success, record { ramdisk = some s.next; live = s.next ∷ s.live; next = suc s.next })

free_ramdisk : Option ℕ → State → Option State
free_ramdisk none s = none
free_ramdisk (some p) s = elim (free p s.live) [
  | none ↦ none
  | some l ↦ some (record s { live = l })
]

-- `none` is a kmem_cache_free of a pointer that is no live object.
unfoldable pub mycdrv_release : State → Option State
unfolding free_ramdisk
mycdrv_release s = free_ramdisk s.ramdisk s

pub record Replies : Type 0 where
  pub cache_created : Bool
  pub region_free : Bool
  pub cdev_allocated : Bool
  pub cdev_added : Bool

-- The parameter `size` and the PAGE_SIZE of the machine decide the first test.
unfoldable pub my_init : (size page_size : ℕ) → Replies → Run (Status × Bool)
my_init size page_size k = if ltb (1024 * page_size) size then return (error 1, false) else (do
  my_cache ← ask (acquire cache) k.cache_created
  if not my_cache then return (error 12, false) else (do
    registered ← ask (acquire region) k.region_free
    if not registered then (do call (release cache); return (error 1, false)) else (do
      my_cdev ← ask (acquire cdev) k.cdev_allocated
      if not my_cdev
          then (do call (release region); call (release cache); return (error 1, false))
          else (do
            call (operate cdev true)
            added ← ask (operate cdev) k.cdev_added
            if not added
                then (do
                  call (release cdev)
                  call (release region)
                  call (release cache)
                  return (error 1, true))
                else (do
                  call (acquire class true)
                  call (acquire device true)
                  return (success, true))))))

-- The argument is `my_cdev`, by whether it is not NULL.
unfoldable pub my_exit : Bool → Run (Unit {0})
my_exit my_cdev = do
  call (release device)
  call (release class)
  if my_cdev then call (release cdev) else return tt
  call (release region)
  call (release cache)

-- Whatever the kernel answers and whatever size is asked for, loading the module and unloading it
-- leaves nothing behind.
cache_module-IsBalanced :
    (size page_size : ℕ) (k : Replies)
    → IsBalanced (insmod_rmmod (my_init size page_size k) my_exit)
unfolding my_init my_exit settle
cache_module-IsBalanced size page_size k = ground arith

-- An open and its release, with no other open between them, free what the open allocated.
pub cache_open-release :
    (s : State)
    → AllBelow s.next s.live
    → mycdrv_release (mycdrv_open true s).1
      ≡ some (record { ramdisk = some s.next; live = s.live; next = suc s.next })
unfolding mycdrv_open mycdrv_release free
cache_open-release s b = ground arith

-- With two files open at once the second open overwrites the pointer of the first: the second
-- release frees an object that is already freed, and the first object is never freed.
cache_two_opens_double_free :
    (s : State)
    → AllBelow s.next s.live
    → let t = (mycdrv_open true (mycdrv_open true s).1).1 in
      (mycdrv_release t ≡ some (record t { live = s.next ∷ s.live }))
      × (mycdrv_release (record t { live = s.next ∷ s.live }) ≡ none)
unfolding mycdrv_open mycdrv_release free
cache_two_opens_double_free s b =
    (ground arith, ground (arith, free-fresh (suc s.next) s.live (AllBelow-suc s.next s.live b)))
