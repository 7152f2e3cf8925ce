-- ===== src/Network/Stub.antt =====
-- chapter_27_network_drivers_basics/basic_network_driver.c: a driver that frees what it is given to send.
use linux_foundation_embedde.Base.{ℕ, ◌≡◌, Bool, true, false, List, [], ◌∷◌, ◌++◌, refl, ◌∙◌}
use mathlib.Core.List.{append-nil, append_assoc}
use linux_foundation_embedde.Kernel.Ledger.{Run, Status, success}
use linux_foundation_embedde.Network.{Skb}
use linux_foundation_embedde.Network.Transmit.{dev_kfree_skb}
use linux_foundation_embedde.Network.Module

-- Whether the queue runs, and the packets given back, in order.
pub record Device : Type 0 where
  pub queue : Bool
  pub freed : List Skb

unfoldable pub net_open : Device → Status × Device
net_open d = (success, record d { queue = true })

unfoldable pub net_close : Device → Status × Device
net_close d = (success, record d { queue = false })

-- The value returned is always 0.
unfoldable pub stub_start_xmit : Skb → Device → Device
stub_start_xmit b d = record d { freed = d.freed ++ (dev_kfree_skb b ∷ []) }

-- The hardware address.
unfoldable pub my_setup : List ℕ
my_setup = 0 ∷ 1 ∷ 2 ∷ 3 ∷ 4 ∷ 5 ∷ []

-- Loading and unloading, as in lab_transmit.c.
abbrev pub my_init : (allocated registered : Bool) → Run (Status × Unit {0})
my_init = Module.my_init

abbrev pub my_exit : Unit {0} → Run (Unit {0})
my_exit = Module.my_exit

-- The kernel's calls of the driver, packet by packet.
unfoldable pub transmit_all : List Skb → Device → Device
transmit_all [] d = d
transmit_all (b ∷ packets) d = transmit_all packets (stub_start_xmit b d)

abbrev pub freed_of : List Skb → List Skb
freed_of [] = []
freed_of (b ∷ packets) = dev_kfree_skb b ∷ freed_of packets

-- Every packet is given back once, in order.
stub_frees :
    (packets : List Skb) (d : Device)
    → transmit_all packets d ≡ record d { freed = d.freed ++ freed_of packets }
unfolding transmit_all stub_start_xmit
stub_frees [] d = rw (append-nil d.freed) refl
stub_frees (b ∷ packets) d =
    stub_frees packets (stub_start_xmit b d)
    ∙ rw (append_assoc d.freed (dev_kfree_skb b ∷ []) (freed_of packets)) refl
