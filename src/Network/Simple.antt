-- ===== src/Network/Simple.antt =====
-- chapter_29_network_drivers_transmission_and_reception/lab_transmit_simple.c: a driver that prints what it is
-- given to send and frees it. Its printline and the loop over the packet are those of lab_transmit.c.
use linux_foundation_embedde.Base.{ℕ, ◌≡◌, Bool, true, false, List, [], ◌∷◌, ◌++◌, refl, ◌∙◌}
use mathlib.Core.List.{append-nil, append_assoc}
use linux_foundation_embedde.Kernel.Ledger.{Run, Status, success}
use linux_foundation_embedde.Network.{Skb}
use linux_foundation_embedde.Network.Lines.{lines}
use linux_foundation_embedde.Network.Transmit.{dev_kfree_skb}
use linux_foundation_embedde.Network.Module

-- Whether the queue runs, the lines printed of each packet, as offsets and lengths, and the packets given back.
pub record Device : Type 0 where
  pub queue : Bool
  pub printed : List (List (ℕ × ℕ))
  pub freed : List Skb

-- The value returned is always 0.
unfoldable pub my_start_xmit : Skb → Device → Device
my_start_xmit b d = record d {
  printed = d.printed ++ (lines b.len ∷ []);
  freed = d.freed ++ (dev_kfree_skb b ∷ []);
}

unfoldable pub my_open : Device → Status × Device
my_open d = (success, record d { queue = true })

unfoldable pub my_close : Device → Status × Device
my_close d = (success, record d { queue = false })

-- The hardware address and IFF_NOARP as my_setup leaves them.
pub record Setup : Type 0 where
  pub dev_addr : List ℕ
  pub noarp : Bool

unfoldable pub my_setup : Setup
my_setup = record { dev_addr = 0 ∷ 1 ∷ 2 ∷ 3 ∷ 4 ∷ 5 ∷ []; noarp = true }

-- Loading and unloading, as in lab_transmit.c.
abbrev pub my_init : (allocated registered : Bool) → Run (Status × Unit {0})
my_init = Module.my_init

abbrev pub my_exit : Unit {0} → Run (Unit {0})
my_exit = Module.my_exit

-- The kernel's calls of the driver, packet by packet.
unfoldable pub transmit_all : List Skb → Device → Device
transmit_all [] d = d
transmit_all (b ∷ packets) d = transmit_all packets (my_start_xmit b d)

-- What is printed of the packets, and what they are when they were given back.
abbrev pub printed_of : List Skb → List (List (ℕ × ℕ))
printed_of [] = []
printed_of (b ∷ packets) = lines b.len ∷ printed_of packets

abbrev pub freed_of : List Skb → List Skb
freed_of [] = []
freed_of (b ∷ packets) = dev_kfree_skb b ∷ freed_of packets

-- Whatever packets it is given, the driver prints every one, in order, and gives each back once.
simple_transmits :
    (packets : List Skb) (d : Device)
    → transmit_all packets d
      ≡ record d { printed = d.printed ++ printed_of packets; freed = d.freed ++ freed_of packets }
unfolding transmit_all my_start_xmit
simple_transmits [] d = rw (append-nil d.printed, append-nil d.freed) refl
simple_transmits (b ∷ packets) d =
    simple_transmits packets (my_start_xmit b d)
    ∙ rw
        (
          append_assoc d.printed (lines b.len ∷ []) (printed_of packets),
          append_assoc d.freed (dev_kfree_skb b ∷ []) (freed_of packets),
        )
        refl
