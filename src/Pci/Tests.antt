-- ===== src/Pci/Tests.antt =====
-- Configuration addresses and small machines behind the ports, for kernel/src/pci.rs.
use lemoncake.Base.{
  ℕ, ◌+◌, ◌*◌, ◌/◌, ◌%◌, ◌^◌, ◌≡◌, refl, arith, ◌==◌, if◌then◌else◌, some, true, ◌↔◌,
}
use lemoncake.Pci.{
  PciDevice, config_address, read_config, write_config, read_part, write_part, enable_bus_master,
  probe_bar_size, read_config32, ecam_read32, port_read, scan_pci_bus,
}
use lemoncake.Pci.Access.{Machine}
use lemoncake.Pci.Address.{config_address-injective}
use lemoncake.Pci.Registers.{Register, stored}
use lemoncake.Pci.Parts.{byte_1, read_part-write_part}
use lemoncake.Pci.Master.{enable_bus_master-settles}
use lemoncake.Pci.Size.{memory, probe_bar_size-Decodes}
use lemoncake.Pci.Scan.{Fixed, gather, bus_devices, scan_pci_bus_lem}

config_address-injective_example :
    (◌≡◌ {A = ℕ} 3 3) × (◌≡◌ {A = ℕ} 31 31) × (◌≡◌ {A = ℕ} 7 7) × (0x3C / 4 ≡ 0x3D / 4)
unfolding config_address
config_address-injective_example =
    config_address-injective 3 31 7 0x3C 3 31 7 0x3D (omega arith) (omega arith) (omega arith)
      (omega arith) (omega arith) (omega arith) (omega arith) (omega arith) refl

-- A machine whose data port reaches one register.
abbrev one_register : (ℕ → ℕ) → Machine
one_register settle = record {
  State = ℕ;
  mmio_read = λ address s. (0, s);
  mmio_write = λ address value s. s;
  port_in = λ port s. (s % 2 ^ 32, s);
  port_out = λ port value s. if port == 0xCFC then settle value else s;
}

abbrev network_card : PciDevice
network_card = record {
  vendor_id = 0x10EC;
  device_id = 0x8139;
  class_code = 2;
  subclass = 0;
  bus = 0;
  slot = 3;
  func = 0;
}

abbrev plain : Machine
plain = one_register (λ v. v)

plain-Register : (index : ℕ) → Register plain 0 network_card (4 * index) stored
unfolding read_config write_config
plain-Register index = record {
  word = λ s. s % 2 ^ 32;
  word-lt = λ s. omega arith;
  answer = λ s. refl;
  undisturbed = λ s. refl;
  settles = λ v s h. omega (arith, h);
}

read_part-write_part_example :
    ((read_part plain 8 0 network_card 5 (write_part plain 8 0 network_card 5 0x5A 0x11223344)).0
      ≡ 0x5A)
    × ((read_part plain 8 0 network_card 5 (write_part plain 8 0 network_card 5 0x5A 0x11223344)).1
          % 2 ^ 32
        ≡ 0x11225A44)
unfolding plain-Register
read_part-write_part_example =
    read_part-write_part plain 0 network_card 1 (omega arith) (plain-Register 1) byte_1 0x5A
      0x11223344 (omega arith)

enable_bus_master-settles_example :
    ((enable_bus_master plain 0 network_card 0x100002).1 % 2 ^ 32 ≡ 0x100007)
    × (((enable_bus_master plain 0 network_card 0x100002).0 ≡ true)
        ↔ ((enable_bus_master plain 0 network_card 0x100002).1 % 2 ^ 32 / 4 % 2 ≡ 1))
unfolding plain-Register
enable_bus_master-settles_example =
    enable_bus_master-settles plain 0 network_card stored (plain-Register 1) 0x100002

-- A register that decodes 4096 addresses.
abbrev window : Machine
window = one_register (λ v. v / 2 ^ 12 * 2 ^ 12)

abbrev window_settle : ℕ → ℕ → ℕ
window_settle old v = v / 2 ^ 12 * 2 ^ 12 + 0

window-Register : Register window 0 network_card (0x10 + 1 * 4) window_settle
unfolding read_config write_config
window-Register = record {
  word = λ s. s % 2 ^ 32;
  word-lt = λ s. omega arith;
  answer = λ s. refl;
  undisturbed = λ s. refl;
  settles = λ v s h. omega (arith, h);
}

probe_bar_size-Decodes_example :
    ((probe_bar_size window 0 network_card 1 0xFEB00000).0 ≡ some 4096)
    × ((probe_bar_size window 0 network_card 1 0xFEB00000).1 % 2 ^ 32 ≡ 0xFEB00000)
unfolding window-Register
probe_bar_size-Decodes_example =
    probe_bar_size-Decodes window 0 network_card 1 window_settle window-Register (omega arith) 12 0
      (λ old v. refl) 0xFEB00000 (memory refl (omega arith) (omega arith) (omega arith))
      (omega arith) refl

-- One bridge at the bus 0 and the slot 0.
abbrev answer_at : ℕ → ℕ
answer_at address = if address == 0x80000000 then 0x12378086 else 0xFFFFFFFF

abbrev one_device : Machine
one_device = record {
  State = ℕ;
  mmio_read = λ address s. (0, s);
  mmio_write = λ address value s. s;
  port_in = λ port s. (answer_at s, s);
  port_out = λ port value s. if port == 0xCF8 then value else s;
}

abbrev one_device_words : ℕ → ℕ → ℕ → ℕ → ℕ
one_device_words bus slot func offset = answer_at (config_address bus slot func offset)

one_device-Fixed : Fixed one_device 0 one_device_words
unfolding read_config32 ecam_read32 port_read
one_device-Fixed bus slot func offset s = refl

scan_pci_bus_lem_example :
    (scan_pci_bus one_device 0 0).0 ≡ gather (bus_devices one_device_words) 0 256
scan_pci_bus_lem_example = scan_pci_bus_lem one_device 0 one_device_words one_device-Fixed 0
