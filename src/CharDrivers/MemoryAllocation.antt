-- ===== src/CharDrivers/MemoryAllocation.antt =====
-- chapter_11_character_drivers/memory_allocation/memory_allocation.c: each open file has a RAM disk
-- of its own, allocated at the open, kept in `file->private_data` and freed at the release.
pub mod Leaks
use linux_foundation_embedde.Base.{
  Bool-cases, inl, inr, ℕ, ◌+◌, suc, Bool, true, false, not, Option, none, some, List, [], ◌∷◌, ◌≡◌,
  if◌then◌else◌, refl, arith, ap, to_int, ◌==◌,
}
use linux_foundation_embedde.Kernel.UserAccess.{Memory, UserAccess}
use linux_foundation_embedde.Kernel.Ledger.{
  acquire, release, operate, region, cdev, Run, ◌>>=◌, ◌>>◌, return, call, ask, Status, success,
  error, insmod_rmmod, IsBalanced, settle,
}
use linux_foundation_embedde.CharDevice.{Access, ok, overrun, Disk, in_block, Transfer, transferred}
use linux_foundation_embedde.CharDrivers.Blocks.{
  Falls, Falls-mono, push, Falls-push, Falls-push_map, kfree, kfree-push, kfree-push_other,
}

-- An open file: its number, and the block that `private_data` points to (`none` is NULL).
pub record OpenFile : Type 0 where
  pub file : ℕ
  pub private_data : Option ℕ

pub record State : Type 0 where
  pub counter : ℕ
  pub files : List OpenFile
  pub live : List ℕ
  pub next : ℕ

-- `allocated` is the answer of kmalloc, which the function does not look at.
unfoldable pub mycdrv_open : ℕ → Bool → State → Status × State
mycdrv_open f allocated s =
    let p : Option ℕ = if allocated then some s.next else none in
    (
      success,
      record {
        counter = to_int (s.counter + 1);
        files = record { file = f; private_data = p } ∷ s.files;
        live = if allocated then s.next ∷ s.live else s.live;
        next = suc s.next;
      },
    )

-- The file system takes the file off its list after the call.
unfoldable pub close : ℕ → List OpenFile → List OpenFile
close f [] = []
close f (o ∷ files) = if o.file == f then files else o ∷ close f files

unfoldable pub find : ℕ → List OpenFile → Option OpenFile
find f [] = none
find f (o ∷ files) = if o.file == f then some o else find f files

-- The release of an open file, given what `find` returns for it.
unfoldable pub mycdrv_release : OpenFile → State → Option State
mycdrv_release o s = elim (kfree o.private_data s.live) [
  | none ↦ none
  | some l ↦ some (record s { live = l; files = close o.file s.files })
]

-- What the files point to, in the order of the files.
abbrev pub blocks : List OpenFile → List ℕ
blocks [] = []
blocks (o ∷ files) = push o.private_data (blocks files)

pub record Inv (s : State) : Type 0 where
  pub owned : s.live ≡ blocks s.files
  pub falls : Falls s.next s.live

-- An open keeps the invariant: the live blocks are those that the open files point to, and no two
-- files share one. It holds also where kmalloc fails.
pub open-Inv : (f : ℕ) (allocated : Bool) (s : State) → Inv s → Inv (mycdrv_open f allocated s).1
unfolding mycdrv_open
open-Inv f true s v = record {
  owned = ap (λ l. s.next ∷ l) v.owned;
  falls = (omega arith, v.falls);
}
open-Inv f false s v = record {
  owned = v.owned;
  falls = Falls-mono s.next (suc s.next) s.live (omega arith) v.falls;
}

close-Falls :
    (n f : ℕ) (files : List OpenFile) → Falls n (blocks files) → Falls n (blocks (close f files))
unfolding close
close-Falls n f [] h = h
close-Falls n f (o ∷ files) h = elim (Bool-cases (o.file == f)) [
  | inl here ↦ rw here (Falls-push n o.private_data (blocks files) h)
  | inr there ↦ rw there (
      Falls-push_map n o.private_data (blocks files) (blocks (close f files))
        (λ m. close-Falls m f files) h)
]

kfree-close :
    (n f : ℕ) (files : List OpenFile) {o : OpenFile}
    → Falls n (blocks files)
    → find f files ≡ some o
    → kfree o.private_data (blocks files) ≡ some (blocks (close f files))
unfolding find kfree close
kfree-close n f [] h e = cc
kfree-close n f (a ∷ files) {o} h e = elim (Bool-cases (a.file == f)) [
  | inl here ↦ let q : a ≡ o = cc here in rw (here, ← q) (kfree-push a.private_data (blocks files))
  | inr there ↦ rw there (
      kfree-push_other n o.private_data a.private_data (blocks files) (blocks (close f files)) h
        (kfree-close n f files (Falls-push n a.private_data (blocks files) h) (rw there at e)))
]

close_file : (f : ℕ) (files : List OpenFile) {o : OpenFile} → find f files ≡ some o → o.file ≡ f
unfolding find
close_file f [] e = cc
close_file f (a ∷ files) {o} e = ground (arith, close_file f files {o = o})

-- The release of an open file never frees a block twice: it frees exactly the block of the file,
-- and keeps the invariant.
pub release-Inv :
    (f : ℕ) (s : State) {o : OpenFile}
    → Inv s
    → find f s.files ≡ some o
    → (t : State) × (mycdrv_release o s ≡ some t) × Inv t × (t.files ≡ close f s.files)
unfolding mycdrv_release
release-Inv f s {o} v e =
    let fall : Falls s.next (blocks s.files) = rw v.owned at v.falls in
    let freed : kfree o.private_data s.live ≡ some (blocks (close f s.files)) =
      rw v.owned (kfree-close s.next f s.files fall e) in
    let same : o.file ≡ f = close_file f s.files e in
    (
      record s { live = blocks (close f s.files); files = close f s.files },
      ground (arith, freed, same),
      record { owned = refl; falls = close-Falls s.next f s.files fall },
      refl,
    )

-- The transfers of one open file, whose RAM disk `d` is the block behind `private_data`.
module _ (u : UserAccess) where
  open u use {copy_to_user, copy_from_user}

  unfoldable pub mycdrv_read : Disk → Memory → ℕ → ℕ → Access Transfer
  mycdrv_read d buf lbuf pos =
      if in_block d pos lbuf
      then ok (transferred lbuf pos (copy_to_user buf d.bytes pos lbuf))
      else overrun

  unfoldable pub mycdrv_write : Disk → Memory → ℕ → ℕ → Access Transfer
  mycdrv_write d buf lbuf pos =
      if in_block d pos lbuf
      then ok (transferred lbuf pos (copy_from_user d.bytes pos buf lbuf))
      else overrun

pub record Replies : Type 0 where
  pub region_free : Bool
  pub cdev_allocated : Bool
  pub cdev_added : Bool

-- The module's variable is `my_cdev`, by whether it is not NULL.
unfoldable pub my_init : Replies → Run (Status × Bool)
my_init k = do
  registered ← ask (acquire region) k.region_free
  if not registered then return (error 1, false) else (do
    my_cdev ← ask (acquire cdev) k.cdev_allocated
    if not my_cdev then (do call (release region); return (error 1, false)) else (do
      call (operate cdev true)
      added ← ask (operate cdev) k.cdev_added
      if not added
          then (do call (release cdev); call (release region); return (error 1, true))
          else return (success, true)))

unfoldable pub my_exit : Bool → Run (Unit {0})
my_exit my_cdev = do if my_cdev then call (release cdev) else return tt; call (release region)

-- Whatever the kernel answers, loading the module and unloading it leaves nothing behind.
pub allocation-IsBalanced : (k : Replies) → IsBalanced (insmod_rmmod (my_init k) my_exit)
unfolding my_init my_exit settle
allocation-IsBalanced k = ground arith
