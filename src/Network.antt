-- ===== src/Network.antt =====
-- The network drivers of chapter_29_network_drivers_transmission_and_reception, and the one of
-- chapter_27_network_drivers_basics.
pub mod Lines
pub mod Transmit
pub mod Receive
pub mod Simple
pub mod Stub
pub mod Devices
pub mod Module
mod Tests
use linux_foundation_embedde.Base.{ℕ, ◌+◌, ◌%◌, ◌^◌, Bool}

-- The fields of struct net_device_stats that the drivers write; each is an `unsigned long`.
pub record Stats : Type 0 where
  pub tx_bytes : ℕ
  pub tx_packets : ℕ
  pub rx_bytes : ℕ
  pub rx_packets : ℕ
  pub collisions : ℕ

-- A socket buffer: its length, an `unsigned int`, and the number of references to it.
pub record Skb : Type 0 where
  pub len : ℕ
  pub users : ℕ
