-- ===== src/MemoryLimits/Tests.antt =====
-- The theorems on the memory limits at concrete answers.
use linux_foundation_embedde.Base.{ℕ, ◌*◌, Bool, ltb, arith}
use linux_foundation_embedde.MemoryLimits.{mb, vmalloc_init, DoublesUpTo, vmalloc_ends}

abbrev small_size : ℕ → Bool
small_size size = ltb size (100 * mb)

vmalloc_ends_example : DoublesUpTo (4 * mb) (512 * mb) (vmalloc_init small_size 512)
vmalloc_ends_example = vmalloc_ends small_size 512 (omega arith)
