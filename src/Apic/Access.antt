-- ===== src/Apic/Access.antt =====
-- What kernel/src/apic.rs needs of the machine: volatile 32-bit accesses to the addresses of the
-- I/O APIC.
use lemoncake.Base.{ℕ}

pub record Device : Type 1 where
  pub State : Type 0
  pub volatile_load : ℕ → State → ℕ × State
  pub volatile_store : ℕ → ℕ → State → State

-- What `LocalApic` and `disable_pic` need besides: the model-specific registers, the ports, and
-- `crate::PMO`.
pub record Cpu : Type 1 where
  pub device : Device
  pub offset : ℕ
  pub read_msr : ℕ → device.State → ℕ × device.State
  pub write_msr : ℕ → ℕ → device.State → device.State
  pub port_in : ℕ → device.State → ℕ × device.State
  pub port_out : ℕ → ℕ → device.State → device.State
