-- ===== src/Network/Transmit.antt =====
-- chapter_29_network_drivers_transmission_and_reception/lab_transmit.c: a driver that prints what it
-- is given to send, frees it and counts it.
use linux_foundation_embedde.Base.{
  ℕ, ◌-◌, ◌<◌, ◌≡◌, ◌↔◌, arith, Bool, true, false, Option, none, some, List, ◌==◌, add64,
  if◌then◌else◌,
}
use linux_foundation_embedde.Kernel.Ledger.{Status, success, error}
use linux_foundation_embedde.Network.{Stats, Skb}
use linux_foundation_embedde.Network.Lines.{lines}

-- The device: its statistics, whether its queue runs, whether IFF_UP is set, and the lines printed
-- of the last packet, as offsets and lengths.
pub record Device : Type 0 where
  pub stats : Stats
  pub queue : Bool
  pub up : Bool
  pub printed : List (ℕ × ℕ)

-- dev_kfree_skb drops a reference; the buffer is gone with the last one.
abbrev pub dev_kfree_skb : Skb → Skb
dev_kfree_skb b = record b { users = b.users - 1 }

-- `skb->len`; `none` is a read of a buffer that is gone.
abbrev pub len : Skb → Option ℕ
len b = if b.users == 0 then none else some b.len

count : Device → Option ℕ → Option Device
count d none = none
count d (some n) = some (record d {
  stats = record d.stats {
    tx_bytes = add64 d.stats.tx_bytes n;
    tx_packets = add64 d.stats.tx_packets 1;
  };
})

-- The value returned is always 0.
unfoldable pub my_start_xmit : Skb → Device → Option Device
unfolding count
my_start_xmit b d = count (record d { printed = lines b.len }) (len (dev_kfree_skb b))

unfoldable pub my_open : Device → Status × Device
my_open d = (success, record d { queue = true })

unfoldable pub my_close : Device → Status × Device
my_close d = (success, record d { queue = false })

-- -EBUSY is 16.
unfoldable pub my_config : Device → Status
my_config d = if d.up then error 16 else success

unfoldable pub my_get_stats : Device → Stats
my_get_stats d = d.stats

-- The length is read after the buffer was given back: the transmission reads freed memory exactly
-- when the driver held the last reference, as the kernel hands a buffer over.
transmit_reads_freed :
    (b : Skb) (d : Device) → 0 < b.users → (my_start_xmit b d ≡ none) ↔ (b.users ≡ 1)
unfolding my_start_xmit
transmit_reads_freed b d h = ground arith

-- A packet that somebody else holds too is counted, with its length, is printed, and nothing else
-- of the device changes.
transmit_counts :
    (b : Skb) (d : Device)
    → 1 < b.users
    → my_start_xmit b d
      ≡ some (record d {
        printed = lines b.len;
        stats = record d.stats {
          tx_bytes = add64 d.stats.tx_bytes b.len;
          tx_packets = add64 d.stats.tx_packets 1;
        };
      })
unfolding my_start_xmit
transmit_counts b d h = ground arith
