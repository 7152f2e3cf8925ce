-- ===== src/Loading/Dma.antt =====
-- chapter_26_dma/basic_dma.c: three ways to allocate a buffer for DMA, tried while the module loads.
use linux_foundation_embedde.Base.{
  List, [], ◌∷◌, ◌++◌, none, ◌≡◌, ◌↔◌, Bool, true, false, not, ◌&&◌, ◌||◌, if◌then◌else◌, arith,
}
use mathlib.Core.List.{append_assoc}
use linux_foundation_embedde.Kernel.Ledger.{
  acquire, release, misc, operate, kfree, memory, mapping, coherent, pool, Run, ◌>>=◌, ◌>>◌, return,
  call, ask, settle, drop, Call, Resource, Status, success, error, is_success, insmod_rmmod,
  IsBalanced,
}
use linux_foundation_embedde.MiscDevice.{my_generic_init, my_generic_exit}

-- Whether the device had a DMA mask, and the answers of the kernel.
pub record Replies : Type 0 where
  pub ramdisk_allocated : Bool
  pub misc_registered : Bool
  pub has_mask : Bool
  pub mask_allocated : Bool
  pub mask_set : Bool
  pub coherent_allocated : Bool
  pub kbuf_allocated : Bool
  pub is_mapped : Bool
  pub pool_created : Bool
  pub pool_allocated : Bool

-- The mask is the memory block 1, which is kept. The result is whether the function returned 0.
unfoldable pub setup_dma_mask : Replies → Run Bool
setup_dma_mask k = if k.has_mask then return k.mask_set else (do
  allocated ← ask (acquire (memory 1)) k.mask_allocated
  return (allocated && k.mask_set))

-- `output` copies a string to the buffer.
unfoldable pub try_coherent : Replies → Run (Unit {0})
try_coherent k = do
  call (acquire (coherent 0) k.coherent_allocated)
  call (operate (coherent 0) true)
  call (release (coherent 0))

unfoldable pub try_map : Replies → Run (Unit {0})
try_map k = do
  kbuf ← ask (acquire (memory 2)) k.kbuf_allocated
  call (acquire (mapping 0) k.is_mapped)
  call (operate (memory 2) true)
  call (release (mapping 0))
  call (kfree 2 kbuf)

unfoldable pub try_pool : Replies → Run (Unit {0})
try_pool k = do
  call (acquire pool k.pool_created)
  call (operate pool true)
  kbuf ← ask (acquire (coherent 1)) k.pool_allocated
  if not kbuf then return tt else call (operate (coherent 1) true)
  call (release (coherent 1))
  call (release pool)

unfoldable pub my_init : Replies → Run (Status × Bool)
unfolding my_generic_init setup_dma_mask
my_init k = do
  (status, ramdisk) ← my_generic_init k.ramdisk_allocated k.misc_registered
  if not (is_success status) then return (status, ramdisk) else (do
    masked ← setup_dma_mask k
    if not masked
        then return (error 1, ramdisk)
        else (do try_coherent k; try_map k; try_pool k; return (success, ramdisk)))

-- All that the three ways ask the kernel for is granted.
abbrev pub granted : Replies → Bool
granted k =
    k.coherent_allocated && k.kbuf_allocated && k.is_mapped && k.pool_created && k.pool_allocated

-- What each of the three ways does to a module that holds none of its resources.
settle-try_coherent :
    (k : Replies) (rest : List Call) (held : List Resource)
    → drop (coherent 0) held ≡ none
    → settle ((try_coherent k).1 ++ rest) held
      ≡ (if k.coherent_allocated then settle rest held else none)
unfolding try_coherent settle
settle-try_coherent k rest held e = ground arith

settle-try_map :
    (k : Replies) (rest : List Call) (held : List Resource)
    → drop (memory 2) held ≡ none
    → drop (mapping 0) held ≡ none
    → settle ((try_map k).1 ++ rest) held
      ≡ (if k.kbuf_allocated && k.is_mapped then settle rest held else none)
unfolding try_map settle
settle-try_map k rest held e f = ground arith

settle-try_pool :
    (k : Replies) (rest : List Call) (held : List Resource)
    → drop pool held ≡ none
    → drop (coherent 1) held ≡ none
    → settle ((try_pool k).1 ++ rest) held
      ≡ (if k.pool_created && k.pool_allocated then settle rest held else none)
unfolding try_pool settle
settle-try_pool k rest held e f = ground arith

-- The three of them.
tries_settle :
    (k : Replies) (rest : List Call) (held : List Resource)
    → drop (coherent 0) held ≡ none
    → drop (memory 2) held ≡ none
    → drop (mapping 0) held ≡ none
    → drop pool held ≡ none
    → drop (coherent 1) held ≡ none
    → settle (((try_coherent k).1 ++ ((try_map k).1 ++ ((try_pool k).1 ++ []))) ++ rest) held
      ≡ (if granted k then settle rest held else none)
tries_settle k rest held a b c d e = simp append_assoc (
    ground (
      arith,
      settle-try_coherent k ((try_map k).1 ++ ((try_pool k).1 ++ rest)) held,
      settle-try_map k ((try_pool k).1 ++ rest) held,
      settle-try_pool k rest held,
    ))

-- Loading and unloading keep to the rules, and leave nothing behind, exactly if the device could not
-- be registered, or had a mask that could be set and everything else was granted. A mask that the
-- driver allocates is never freed, a mask that cannot be set leaves the device registered, and no
-- other answer is looked at before it is used.
dma-IsBalanced_iff :
    (k : Replies)
    → IsBalanced (insmod_rmmod (my_init k) my_generic_exit)
      ↔ (not k.misc_registered || (k.has_mask && k.mask_set && granted k) ≡ true)
unfolding my_init my_generic_exit settle
dma-IsBalanced_iff k = ground (
  arith,
  tries_settle k (release misc ∷ kfree 0 true ∷ []) (misc ∷ memory 0 ∷ []),
  tries_settle k (release misc ∷ kfree 0 false ∷ []) (misc ∷ []),
  tries_settle k (release misc ∷ kfree 0 true ∷ []) (memory 1 ∷ misc ∷ memory 0 ∷ []),
  tries_settle k (release misc ∷ kfree 0 false ∷ []) (memory 1 ∷ misc ∷ []),
)
