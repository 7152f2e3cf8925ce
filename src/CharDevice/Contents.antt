-- ===== src/CharDevice/Contents.antt =====
-- What the handlers of the generic character device move, and what they leave alone.
use linux_foundation_embedde.Base.{
  ℕ, ◌+◌, ◌-◌, ◌^◌, ◌≤◌, ◌<◌, ◌≡◌, refl, arith, ltb, if◌then◌else◌, ◌∙◌, sym, ap, lt→ltb,
}
use mathlib.Core.Path.{◌≡⟨◌⟩◌, ◌∎}
use linux_foundation_embedde.Kernel.UserAccess.{Memory, UserAccess, splice, zeros, splice_lem}
use linux_foundation_embedde.CharDevice.{
  ok, overrun, Disk, Transfer, mycdrv_generic_read, mycdrv_generic_write,
}
use linux_foundation_embedde.CharDevice.Bounds.{
  IsValid, room, bytes_to_do-past_end, read-eq, write-eq,
}

ok-injective {ℓ} : {A : Type ℓ} {a b : A} → ok a ≡ ok b → a ≡ b
ok-injective e = cc

-- From a position inside the disk a read succeeds whatever length it is asked for. It returns at
-- most that length and what is left of the disk, moves the position by what it returns, not past
-- the end, and stores the bytes of the disk from the old position on in the user's buffer, whose
-- other bytes stay.
read_inside :
    (u : UserAccess) {d : Disk} (v : IsValid d) (buf : Memory) (lbuf pos : ℕ)
    → pos ≤ d.ramdisk_size
    → lbuf < 2 ^ 63
    → (t : Transfer) × (mycdrv_generic_read u d buf lbuf pos ≡ ok t)
      × (t.nbytes ≤ room d.ramdisk_size pos lbuf)
      × (t.pos ≡ pos + t.nbytes)
      × (t.pos ≤ d.ramdisk_size)
      × ((i : ℕ) → t.bytes i ≡ (if ltb i t.nbytes then d.bytes (pos + i) else buf i))
read_inside u {d} v buf lbuf pos inside fits = (
  _,
  read-eq u v buf lbuf pos inside fits,
  ground arith,
  refl,
  ground arith,
  λ i. u.to_bytes buf d.bytes pos (room d.ramdisk_size pos lbuf) i ∙ ground arith,
)

-- From a position inside the disk a write succeeds whatever length it is asked for. It returns at
-- most that length and what is left of the disk, moves the position by what it returns, not past
-- the end, and stores that many of the user's bytes at the old position. The bytes that it tried to
-- copy and could not are set to 0; all other bytes of the disk stay.
pub write_inside :
    (u : UserAccess) {d : Disk} (v : IsValid d) (buf : Memory) (lbuf pos : ℕ)
    → pos ≤ d.ramdisk_size
    → lbuf < 2 ^ 63
    → (t : Transfer) × (mycdrv_generic_write u d buf lbuf pos ≡ ok t)
      × (t.nbytes ≤ room d.ramdisk_size pos lbuf)
      × (t.pos ≡ pos + t.nbytes)
      × (t.pos ≤ d.ramdisk_size)
      × ((i : ℕ)
          → t.bytes i
            ≡ splice
                (splice d.bytes pos zeros 0 (room d.ramdisk_size pos lbuf))
                pos
                buf
                0
                t.nbytes
                i)
write_inside u {d} v buf lbuf pos inside fits = (
  _,
  write-eq u v buf lbuf pos inside fits,
  ground arith,
  refl,
  ground arith,
  λ i. u.from_bytes d.bytes pos buf (room d.ramdisk_size pos lbuf) i,
)

-- What was written at a position is what a read at that position stores in the user's buffer, as
-- far as both calls copied.
pub read-write :
    (u : UserAccess) {d : Disk} (v : IsValid d) (buf out : Memory) (lbuf len pos : ℕ)
    → pos ≤ d.ramdisk_size
    → lbuf < 2 ^ 63
    → len < 2 ^ 63
    → {t s : Transfer} → mycdrv_generic_write u d buf lbuf pos ≡ ok t
    → mycdrv_generic_read u (record d { bytes = t.bytes }) out len pos ≡ ok s
    → (i : ℕ) → i < t.nbytes
    → i < s.nbytes
    → s.bytes i ≡ buf i
read-write u {d} v buf out lbuf len pos inside f g {t} {s} wrote read i h k =
    let (t', e, _, _, _, stored) = write_inside u v buf lbuf pos inside f in
    let (s', e', _, _, _, shown) = read_inside u kept out len pos inside g in
    let q : t ≡ t' = ok-injective (sym wrote ∙ e) in
    let q' : s ≡ s' = ok-injective (sym read ∙ e') in
    s.bytes i
    ≡⟨ ap (λ (r : Transfer). r.bytes i) q' ⟩ s'.bytes i
    ≡⟨ shown i ∙ (rw (lt→ltb i s'.nbytes (rw q' at k))) ⟩ t.bytes (pos + i)
    ≡⟨ ap (λ (r : Transfer). r.bytes (pos + i)) q ⟩ t'.bytes (pos + i)
    ≡⟨ stored (pos + i)
      ∙ splice_lem (splice d.bytes pos zeros 0 (room d.ramdisk_size pos lbuf)) pos buf _ i
          (rw q at h) ⟩
      buf i ∎
  where
    kept : IsValid (record d { bytes = t.bytes })
    kept = record { whole = v.whole; small = v.small }

-- At a position behind the end a read and a write of a length above 0 leave the disk: the
-- difference `ramdisk_size - *ppos` is negative, and the comparison with `lbuf` reads it as a huge
-- number. The position lies at most 2 ^ 31 bytes behind the end.
past_end_overruns :
    (u : UserAccess) {d : Disk} (v : IsValid d) (buf : Memory) (lbuf pos : ℕ)
    → d.ramdisk_size < pos
    → pos - d.ramdisk_size ≤ 2 ^ 31
    → 0 < lbuf
    → lbuf < 2 ^ 31
    → (mycdrv_generic_read u d buf lbuf pos ≡ overrun)
      × (mycdrv_generic_write u d buf lbuf pos ≡ overrun)
unfolding mycdrv_generic_read mycdrv_generic_write
past_end_overruns u {d} v buf lbuf pos past near some_bytes small =
    let e = bytes_to_do-past_end d.ramdisk_size pos lbuf past near small in
    (rw e (ground arith), rw e (ground arith))
