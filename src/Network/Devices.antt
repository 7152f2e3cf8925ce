-- ===== src/Network/Devices.antt =====
-- chapter_28_network_drivers_data_structures/network_devices.c: a module that logs the network devices, whose list is the
-- kernel's.
use linux_foundation_embedde.Base.{ℕ, List, [], ◌∷◌}

-- The fields of struct net_device that are read.
pub record NetDevice : Type 0 where
  pub name : List ℕ
  pub irq : ℕ

-- A line of the log.
pub record Line : Type 0 where
  pub name : List ℕ
  pub irq : ℕ
  pub trans_start : ℕ

module _ (dev_trans_start : NetDevice → ℕ) where
  unfoldable pub print_net_device : NetDevice → Line
  print_net_device dev = record {
    name = dev.name;
    irq = dev.irq;
    trans_start = dev_trans_start dev;
  }

  -- The lines that my_init logs of the devices of init_net, in their order.
  unfoldable pub my_init : (devices : List NetDevice) → List Line
  unfolding print_net_device
  my_init [] = []
  my_init (dev ∷ rest) = print_net_device dev ∷ my_init rest
