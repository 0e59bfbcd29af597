-- ===== src/Pci/Registers.antt =====
-- Registers of a device's configuration space as kernel/src/pci.rs reaches them, over the memory
-- window or the ports: what the laws of the partial writes and of the probe ask of the device.
use lemoncake.Base.{ℕ, ◌^◌, ◌<◌, ◌≡◌}
use lemoncake.Pci.{PciDevice, read_config, write_config}
use lemoncake.Pci.Access.{Machine}

module _ (machine : Machine) (ecam : ℕ) (d : PciDevice) where
  -- A register whose reads have no effect on it; a write leaves what the device makes of the old
  -- word and the written one.
  pub record Register (offset : ℕ) (settle : ℕ → ℕ → ℕ) : Type 0 where
    pub word : machine.State → ℕ
    pub word-lt : (s : machine.State) → word s < 2 ^ 32
    pub answer : (s : machine.State) → (read_config machine ecam d offset s).0 ≡ word s
    pub undisturbed : (s : machine.State) → word (read_config machine ecam d offset s).1 ≡ word s
    pub settles :
        (v : ℕ) (s : machine.State)
        → v < 2 ^ 32
        → word (write_config machine ecam d offset v s) ≡ settle (word s) v

-- A register that keeps every bit.
abbrev pub stored : ℕ → ℕ → ℕ
stored old v = v
