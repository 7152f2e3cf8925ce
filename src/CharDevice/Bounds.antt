-- ===== src/CharDevice/Bounds.antt =====
-- The handlers of the generic character device stay inside the RAM disk.
use linux_foundation_embedde.Base.{
  ℕ, ◌+◌, ◌-◌, ◌^◌, ◌≤◌, ◌<◌, ◌≡◌, arith, ltb, if◌then◌else◌, extend, true, ap,
}
use linux_foundation_embedde.Kernel.UserAccess.{Memory, UserAccess}
use linux_foundation_embedde.CharDevice.{
  ok, Disk, in_block, transferred, bytes_to_do, mycdrv_generic_read, mycdrv_generic_write,
}

-- The block is as long as the driver takes it to be, and its size is an `int`.
pub record IsValid (d : Disk) : Type 0 where
  pub whole : d.allocated ≡ d.ramdisk_size
  pub small : d.ramdisk_size < 2 ^ 31

-- The bytes that fit between a position and the end.
abbrev pub room : ℕ → ℕ → ℕ → ℕ
room size pos lbuf = if ltb lbuf (size - pos) then lbuf else size - pos

pub bytes_to_do-room :
    (size pos lbuf : ℕ)
    → size < 2 ^ 31
    → pos ≤ size
    → lbuf < 2 ^ 63
    → bytes_to_do size pos lbuf ≡ room size pos lbuf
unfolding bytes_to_do
bytes_to_do-room size pos lbuf s p l = ground arith

-- Behind the end `maxbytes` is negative, which as a `size_t` is above any length.
pub bytes_to_do-past_end :
    (size pos lbuf : ℕ)
    → size < pos
    → pos - size ≤ 2 ^ 31
    → lbuf < 2 ^ 31
    → bytes_to_do size pos lbuf ≡ lbuf
unfolding bytes_to_do
bytes_to_do-past_end size pos lbuf p near l = ground arith

pub transferred_lem :
    (n pos left : ℕ) (m : Memory)
    → n < 2 ^ 31
    → pos < 2 ^ 31
    → left ≤ n
    → transferred n pos (left, m) ≡ record { nbytes = n - left; pos = pos + (n - left); bytes = m }
transferred_lem n pos left m a b c = ground arith

-- Inside the disk the handlers run as their natural-number reading.
module _ (u : UserAccess) {d : Disk} (v : IsValid d) (buf : Memory) (lbuf pos : ℕ) where
  abbrev asked : ℕ
  asked = room d.ramdisk_size pos lbuf

  module _ (inside : pos ≤ d.ramdisk_size) (fits : lbuf < 2 ^ 63) where
    in_block_lem : in_block d pos asked ≡ true
    in_block_lem = ground arith

    extend-asked : extend (bytes_to_do d.ramdisk_size pos lbuf) ≡ asked
    extend-asked = rw (bytes_to_do-room d.ramdisk_size pos lbuf v.small inside fits) (ground arith)

    pub read-eq :
        let (left, m) = u.copy_to_user buf d.bytes pos asked in
        mycdrv_generic_read u d buf lbuf pos
        ≡ ok (record { nbytes = asked - left; pos = pos + (asked - left); bytes = m })
    unfolding mycdrv_generic_read
    read-eq =
        rw (extend-asked, in_block_lem)
          (ap ok (transferred_lem asked pos _ _ (ground arith) (ground arith) (u.to_left _ _ _ _)))

    pub write-eq :
        let (left, m) = u.copy_from_user d.bytes pos buf asked in
        mycdrv_generic_write u d buf lbuf pos
        ≡ ok (record { nbytes = asked - left; pos = pos + (asked - left); bytes = m })
    unfolding mycdrv_generic_write
    write-eq =
        rw (extend-asked, in_block_lem)
          (ap ok
            (transferred_lem asked pos _ _ (ground arith) (ground arith) (u.from_left _ _ _ _)))
