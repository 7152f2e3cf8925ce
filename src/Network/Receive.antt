-- ===== src/Network/Receive.antt =====
-- chapter_29_network_drivers_transmission_and_reception/lab_receive.c: a driver that hands every
-- packet that it is given to send back to the kernel as received.
use linux_foundation_embedde.Base.{
  ℕ, ◌+◌, ◌^◌, ◌<◌, ◌≡◌, arith, Bool, true, false, List, [], ◌∷◌, ◌++◌, add64, length, sym, ◌∙◌,
  if◌then◌else◌,
}
use mathlib.Core.List.{append-nil, append_assoc}
use linux_foundation_embedde.Kernel.Ledger.{Status, success, error}
use linux_foundation_embedde.Network.{Stats, Skb}
use linux_foundation_embedde.Network.Lines.{lines}

-- The statistics, whether the queue runs, whether IFF_UP is set, the lines printed of the last packet, and what
-- netif_rx was given, in order.
pub record Device : Type 0 where
  pub stats : Stats
  pub queue : Bool
  pub up : Bool
  pub printed : List (ℕ × ℕ)
  pub received : List Skb

unfoldable pub my_rx : Skb → Device → Device
my_rx b d = record d {
  stats = record d.stats {
    rx_bytes = add64 d.stats.rx_bytes b.len;
    rx_packets = add64 d.stats.rx_packets 1;
  };
  received = d.received ++ (b ∷ []);
}

unfoldable pub my_start_xmit : Skb → Device → Device
unfolding my_rx
my_start_xmit b d = my_rx b (record d {
  printed = lines b.len;
  stats = record d.stats {
    tx_bytes = add64 d.stats.tx_bytes b.len;
    tx_packets = add64 d.stats.tx_packets 1;
  };
})

unfoldable pub my_do_ioctl : (cmd : ℕ) → Device → Status
my_do_ioctl cmd d = error 1

unfoldable pub my_get_stats : Device → Stats
my_get_stats d = d.stats

-- -EBUSY is 16.
unfoldable pub my_config : Device → Status
my_config d = if d.up then error 16 else success

unfoldable pub my_change_mtu : (new_mtu : ℕ) → Device → Status
my_change_mtu new_mtu d = error 1

unfoldable pub my_open : Device → Status × Device
my_open d = (success, record d { queue = true })

unfoldable pub my_close : Device → Status × Device
my_close d = (success, record d { queue = false })

-- The hardware address, IFF_NOARP and the statistics as my_setup leaves them. The address has
-- ETH_ALEN = 6 bytes.
pub record Setup : Type 0 where
  pub dev_addr : List ℕ
  pub noarp : Bool
  pub stats : Stats

-- `stats` are those of the new device, which alloc_netdev has cleared.
unfoldable pub my_setup : Setup
my_setup = record {
  dev_addr = 0 ∷ 1 ∷ 2 ∷ 3 ∷ 4 ∷ 5 ∷ [];
  noarp = true;
  stats = record { tx_bytes = 0; tx_packets = 0; rx_bytes = 0; rx_packets = 0; collisions = 50 };
}

-- The kernel's calls of the driver, by the fields of `ndo`.
pub data Call : Type 0 where
  ndo_open : Call
  ndo_stop : Call
  ndo_start_xmit : Skb → Call
  ndo_do_ioctl : (cmd : ℕ) → Call
  ndo_get_stats : Call
  ndo_set_config : Call
  ndo_change_mtu : (new_mtu : ℕ) → Call

-- The status that a call returns, and the device behind it.
unfoldable pub ndo : Call → Device → Status × Device
unfolding my_open my_close my_start_xmit my_do_ioctl my_config my_change_mtu
ndo ndo_open d = my_open d
ndo ndo_stop d = my_close d
ndo (ndo_start_xmit b) d = (success, my_start_xmit b d)
ndo (ndo_do_ioctl cmd) d = (my_do_ioctl cmd d, d)
ndo ndo_get_stats d = (success, d)
ndo ndo_set_config d = (my_config d, d)
ndo (ndo_change_mtu m) d = (my_change_mtu m d, d)

unfoldable pub run_calls : List Call → Device → Device
run_calls [] d = d
run_calls (call ∷ calls) d = run_calls calls (ndo call d).1

-- The packets that some calls hand to the driver.
unfoldable pub packets_of : List Call → List Skb
packets_of [] = []
packets_of (ndo_open ∷ calls) = packets_of calls
packets_of (ndo_stop ∷ calls) = packets_of calls
packets_of (ndo_start_xmit b ∷ calls) = b ∷ packets_of calls
packets_of (ndo_do_ioctl cmd ∷ calls) = packets_of calls
packets_of (ndo_get_stats ∷ calls) = packets_of calls
packets_of (ndo_set_config ∷ calls) = packets_of calls
packets_of (ndo_change_mtu m ∷ calls) = packets_of calls

pub sum_of : List Skb → ℕ
sum_of [] = 0
sum_of (b ∷ packets) = b.len + sum_of packets

-- Everything sent comes back: if a device has counted the same traffic in both directions, then whatever calls are
-- made of the driver, in any order, it hands the packets among them to the kernel in the same order, counts as many
-- as sent and as received, and adds up their lengths in both directions (modulo 2 ^ 64).
pub loops_back :
    (calls : List Call) (d : Device)
    → d.stats.tx_bytes ≡ d.stats.rx_bytes
    → d.stats.tx_packets ≡ d.stats.rx_packets
    → d.stats.tx_bytes < 2 ^ 64
    → d.stats.tx_packets < 2 ^ 64
    → let t = run_calls calls d in
      (t.received ≡ d.received ++ packets_of calls)
      × ((my_get_stats t).tx_bytes ≡ add64 d.stats.tx_bytes (sum_of (packets_of calls)))
      × ((my_get_stats t).rx_bytes ≡ add64 d.stats.rx_bytes (sum_of (packets_of calls)))
      × ((my_get_stats t).tx_packets ≡ add64 d.stats.tx_packets (length (packets_of calls)))
      × ((my_get_stats t).rx_packets ≡ add64 d.stats.rx_packets (length (packets_of calls)))
unfolding run_calls ndo my_open my_close my_start_xmit my_get_stats sum_of packets_of
loops_back [] d e f a b =
    (sym (append-nil d.received), omega arith, omega arith, omega arith, omega arith)
loops_back (ndo_open ∷ calls) d e f a b = loops_back calls (my_open d).1 e f a b
loops_back (ndo_stop ∷ calls) d e f a b = loops_back calls (my_close d).1 e f a b
loops_back (ndo_do_ioctl cmd ∷ calls) d e f a b = loops_back calls d e f a b
loops_back (ndo_get_stats ∷ calls) d e f a b = loops_back calls d e f a b
loops_back (ndo_set_config ∷ calls) d e f a b = loops_back calls d e f a b
loops_back (ndo_change_mtu m ∷ calls) d e f a b = loops_back calls d e f a b
loops_back (ndo_start_xmit p ∷ calls) d e f a b =
    let (r, tb, rb, tp, rp) =
      loops_back calls (my_start_xmit p d) (ground arith) (ground arith) (ground arith)
        (ground arith) in
    (
      r ∙ append_assoc d.received (p ∷ []) (packets_of calls),
      tb ∙ ground arith,
      rb ∙ ground arith,
      tp ∙ ground arith,
      rp ∙ ground arith,
    )
