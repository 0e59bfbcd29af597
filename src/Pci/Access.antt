-- ===== src/Pci/Access.antt =====
-- What kernel/src/pci.rs needs of the machine: 32-bit volatile accesses to memory and to ports.
use lemoncake.Base.{ℕ}

pub record Machine : Type 1 where
  pub State : Type 0
  pub mmio_read : ℕ → State → ℕ × State
  pub mmio_write : ℕ → ℕ → State → State
  pub port_in : ℕ → State → ℕ × State
  pub port_out : ℕ → ℕ → State → State
