-- ===== src/CharDrivers/MemoryAllocation/Leaks.antt =====
-- Every run of opens and releases of memory_allocation.c.
use linux_foundation_embedde.Base.{
  ℕ, Bool, some, [], ◌≡◌, refl, sym, ap, subst, ◌∙◌, Chain, Chain-invariant,
}
use mathlib.Core.Option.{some-injective}
use linux_foundation_embedde.CharDrivers.MemoryAllocation.{
  OpenFile, State, mycdrv_open, mycdrv_release, find, close, blocks, Inv, open-Inv, release-Inv,
}

abbrev pub loaded : State
loaded = record { counter = 0; files = []; live = []; next = 0 }

-- The kernel opens a file, where kmalloc may fail, and releases an open one.
pub data Step : State → State → Type 0 where
  open_file : (f : ℕ) (allocated : Bool) (s : State) → Step s (mycdrv_open f allocated s).1
  release_file :
      (f : ℕ) {o : OpenFile} (s : State) {t : State}
      → find f s.files ≡ some o
      → mycdrv_release o s ≡ some t
      → Step s t

Step-Inv : (s t : State) → Step s t → Inv s → Inv t
Step-Inv s t (open_file f allocated _) v = open-Inv f allocated s v
Step-Inv s t (release_file f _ found e) v =
    let (u, run, inv, files) = release-Inv f s v found in
    subst Inv (some-injective _ _ (sym run ∙ e)) inv

-- However files are opened and released, and whichever of the allocations fail, the live blocks are those that the open
-- files point to, one each, so that none is left when no file is open; and the release of an open file never frees a
-- block twice: it frees the block of that file and no other.
pub no_block_leaks :
    {s : State}
    → Chain Step loaded s
    → (f : ℕ) {o : OpenFile} → find f s.files ≡ some o
    → (s.live ≡ blocks s.files)
      × ((t : State) × (mycdrv_release o s ≡ some t) × (t.live ≡ blocks (close f s.files)))
no_block_leaks {s} c f found =
    let v = Chain-invariant Inv Step-Inv c (record { owned = refl; falls = tt }) in
    let (t, run, inv, files) = release-Inv f s v found in
    (v.owned, (t, run, inv.owned ∙ ap blocks files))
