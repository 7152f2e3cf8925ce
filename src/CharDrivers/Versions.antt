-- ===== src/CharDrivers/Versions.antt =====
-- How the solutions of chapter_11_character_drivers follow one another: the sample drivers refuse a
-- transfer that crosses the end of the disk, lab_char.c does not look at the end, and lab_dynamic.c,
-- lab_dynamic_udev.c and lab_misc.c cut it.
use linux_foundation_embedde.Base.{ℕ, ◌+◌, ◌^◌, ◌≤◌, ◌<◌, ◌≡◌, ◌⊎◌, inl, inr, extend, arith, refl}
use native.Mathlib.Decide.{dec_le}
use linux_foundation_embedde.Kernel.UserAccess.{Memory, UserAccess}
use linux_foundation_embedde.CharDevice.{
  ok, overrun, Disk, bytes_to_do, mycdrv_generic_read, mycdrv_generic_write,
}
use linux_foundation_embedde.CharDevice.Bounds.{IsValid, bytes_to_do-room}
use linux_foundation_embedde.CharDrivers.Sample
use linux_foundation_embedde.CharDrivers.Improve
use linux_foundation_embedde.CharDrivers.Char
use linux_foundation_embedde.CharDrivers.Dynamic
use linux_foundation_embedde.CharDrivers.Misc

module _ (u : UserAccess) {d : Disk} (v : IsValid d) (buf : Memory) (lbuf pos : ℕ)
    (inside : pos ≤ d.ramdisk_size) (small : lbuf < 2 ^ 63) where
  asked_all : pos + lbuf ≤ d.ramdisk_size → extend (bytes_to_do d.ramdisk_size pos lbuf) ≡ lbuf
  asked_all fits = rw (bytes_to_do-room d.ramdisk_size pos lbuf v.small inside small) (ground arith)

  -- Each version keeps what the one before it did, from a position inside the disk: lab_char.c either
  -- runs over the end of the disk or does what lab_dynamic.c does, the sample drivers either refuse or
  -- do what lab_dynamic.c and lab_misc.c do, for reads and for writes.
  pub versions_agree :
      let read = Dynamic.mycdrv_read u d buf lbuf pos in
      let write = Dynamic.mycdrv_write u d buf lbuf pos in
      ((Char.mycdrv_read u d buf lbuf pos ≡ overrun) ⊎ (Char.mycdrv_read u d buf lbuf pos ≡ read))
      × ((Char.mycdrv_write u d buf lbuf pos ≡ overrun)
          ⊎ (Char.mycdrv_write u d buf lbuf pos ≡ write))
      × ((Misc.sample_read u d buf lbuf pos ≡ ok (record { nbytes = 0; pos = pos; bytes = buf }))
          ⊎ (Misc.sample_read u d buf lbuf pos ≡ read))
      × ((Misc.sample_write u d buf lbuf pos
            ≡ ok (record { nbytes = 0; pos = pos; bytes = d.bytes }))
          ⊎ (Misc.sample_write u d buf lbuf pos ≡ write))
  unfolding Improve.mycdrv_read Improve.mycdrv_write Sample.mycdrv_read Sample.mycdrv_write
      mycdrv_generic_read mycdrv_generic_write
  versions_agree = elim (dec_le (pos + lbuf) d.ramdisk_size) [
    | yes fits ↦
        let all = asked_all fits in
        (
          inr (rw all refl),
          inr (rw all refl),
          inr (rw all (ground (arith, v.small))),
          inr (rw all (ground (arith, v.small))),
        )
    | no over ↦ (
      inl (ground (arith, v.whole)),
      inl (ground (arith, v.whole)),
      inl (ground (arith, v.small)),
      inl (ground (arith, v.small)),
    )
  ]
