-- ===== src/Network/Tests.antt =====
-- The theorems on the network drivers at concrete inputs.
use linux_foundation_embedde.Base.{List, ◌≡◌, [], ◌∷◌, false, true, refl, arith, add64}
use linux_foundation_embedde.Network.{Stats, Skb}
use linux_foundation_embedde.Network.Lines.{lines, iota, printed, text_of, lines_print_all}
use linux_foundation_embedde.Network.Receive
use linux_foundation_embedde.Network.Receive.{
  Call, ndo_open, ndo_stop, ndo_start_xmit, ndo_set_config, packets_of, sum_of,
}

lines_print_all_example :
    printed (λ b. 32 ∷ b ∷ []) (λ i. i) (lines 35) ≡ text_of (λ b. 32 ∷ b ∷ []) (λ i. i) (iota 0 35)
lines_print_all_example = lines_print_all (λ b. 32 ∷ b ∷ []) (λ i. i) 35 (omega arith)

abbrev packet : Skb
packet = record { len = 60; users = 1 }

abbrev none_yet : Stats
none_yet = record { tx_bytes = 0; tx_packets = 0; rx_bytes = 0; rx_packets = 0; collisions = 50 }

abbrev looped : Receive.Device
looped = record { stats = none_yet; queue = false; up = true; printed = []; received = [] }

abbrev session : List Call
session = ndo_open ∷ ndo_start_xmit packet ∷ ndo_set_config ∷ ndo_start_xmit packet ∷ ndo_stop ∷ []

loops_back_example :
    let t = Receive.run_calls session looped in
    (t.received ≡ packet ∷ packet ∷ [])
    × ((Receive.my_get_stats t).tx_bytes ≡ add64 0 (sum_of (packets_of session)))
    × ((Receive.my_get_stats t).rx_bytes ≡ add64 0 (sum_of (packets_of session)))
    × ((Receive.my_get_stats t).tx_packets ≡ 2)
    × ((Receive.my_get_stats t).rx_packets ≡ 2)
unfolding packets_of
loops_back_example = Receive.loops_back session looped refl refl (omega arith) (omega arith)
