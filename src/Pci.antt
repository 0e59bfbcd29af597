-- ===== src/Pci.antt =====
-- kernel/src/pci.rs: PCI configuration space through ECAM or the ports 0xCF8 and 0xCFC, the
-- partial writes, base address registers and the scan of the buses. `ECAM_BASE` is the argument
-- `ecam`; the machine behind the accesses is a parameter.
pub mod Access
pub mod Address
pub mod Registers
pub mod Parts
pub mod Master
pub mod Size
pub mod Scan
mod Tests
use lemoncake.Base.{
  ℕ, zero, suc, ◌+◌, ◌-◌, ◌*◌, ◌/◌, ◌%◌, ◌^◌, bit_and, bit_or, ltb, leb, ◌==◌, if◌then◌else◌,
}
use lemoncake.Base.{
  Bool, true, false, not, ◌&&◌, Option, none, some, List, [], ◌∷◌, ◌++◌, shl, shr, not_w,
}
use Access.{Machine}

pub record PciDevice : Type 0 where
  pub vendor_id : ℕ
  pub device_id : ℕ
  pub class_code : ℕ
  pub subclass : ℕ
  pub bus : ℕ
  pub slot : ℕ
  pub func : ℕ

abbrev pub cmd_offset : ℕ
cmd_offset = 0x04

abbrev pub cmd_bus_master : ℕ
cmd_bus_master = 2 ^ 2

abbrev pub cmd_memory_enable : ℕ
cmd_memory_enable = 1

-- The address of a register in the memory window.
abbrev pub ecam_address : ℕ → ℕ → ℕ → ℕ → ℕ → ℕ
ecam_address ecam bus slot func offset =
    ecam + shl 64 bus 20 + shl 64 slot 15 + shl 64 func 12 + offset

-- The word that selects a register at port 0xCF8.
unfoldable pub config_address : ℕ → ℕ → ℕ → ℕ → ℕ
config_address bus slot func offset =
    bit_or (bit_or (bit_or (bit_or (shl 32 1 31) (shl 32 bus 16)) (shl 32 slot 11)) (shl 32 func 8))
      (bit_and offset 0xFC)

-- `offset & !0x3` and `(offset & 3) * 8`
unfoldable pub aligned_of : ℕ → ℕ
aligned_of offset = bit_and offset (not_w 16 3)

unfoldable pub shift_of : ℕ → ℕ
shift_of offset = bit_and offset 3 * 8

-- `(old & !(ones << shift)) | (value << shift)`, the word that the partial writes store
unfoldable pub merge : ℕ → ℕ → ℕ → ℕ → ℕ
merge ones shift old value =
    bit_or (bit_and old (not_w 32 (shl 32 ones shift))) (shl 32 value shift)

-- `!mask + 1` of a `w`-bit mask, which is not 0 here
unfoldable pub size_of_mask : ℕ → ℕ → ℕ
size_of_mask w mask = not_w w mask + 1

module _ (machine : Machine) where
  -- A result with the machine after it.
  abbrev pub Io {ℓ} : Type ℓ → Type ℓ
  Io A = machine.State → A × machine.State

  infixr 5 ◌then◌
  abbrev pub ◌then◌ {ℓ κ} : {A : Type ℓ} {B : Type κ} → Io A → (A → Io B) → Io B
  (m then f) s = let (a, s') = m s in f a s'

  abbrev pub give {ℓ} : {A : Type ℓ} → A → Io A
  give a s = (a, s)

  unfoldable pub ecam_read32 : ℕ → ℕ → ℕ → ℕ → ℕ → Io (Option ℕ)
  ecam_read32 ecam bus slot func offset =
      if ecam == 0
      then give none
      else (machine.mmio_read (ecam_address ecam bus slot func offset) then λ v. give (some v))

  unfoldable pub port_read : ℕ → Io ℕ
  port_read address s = machine.port_in 0xCFC (machine.port_out 0xCF8 address s)

  unfoldable pub read_config : ℕ → PciDevice → ℕ → Io ℕ
  unfolding port_read
  read_config ecam d offset =
      if ecam == 0
      then port_read (config_address d.bus d.slot d.func offset)
      else machine.mmio_read (ecam_address ecam d.bus d.slot d.func offset)

  unfoldable pub write_config : ℕ → PciDevice → ℕ → ℕ → machine.State → machine.State
  write_config ecam d offset value s =
      if ecam == 0
      then machine.port_out 0xCFC value
          (machine.port_out 0xCF8 (config_address d.bus d.slot d.func offset) s)
      else machine.mmio_write (ecam_address ecam d.bus d.slot d.func offset) value s

  unfoldable pub read_config32 : ℕ → ℕ → ℕ → ℕ → ℕ → Io ℕ
  read_config32 ecam bus slot func offset = ecam_read32 ecam bus slot func offset then λ r. elim r [
    | some v ↦ give v
    | none ↦ port_read (config_address bus slot func offset)
  ]

  -- `read_config_u16` and `read_config_u8`, at the width `w`
  unfoldable pub read_part : ℕ → ℕ → PciDevice → ℕ → Io ℕ
  unfolding read_config
  read_part w ecam d offset =
      read_config ecam d (aligned_of offset) then λ v. give (shr v (shift_of offset) % 2 ^ w)

  -- `write_config_u16` and `write_config_u8`, at the width `w`
  unfoldable pub write_part : ℕ → ℕ → PciDevice → ℕ → ℕ → machine.State → machine.State
  unfolding read_config write_config
  write_part w ecam d offset value s =
      let (old, s') = read_config ecam d (aligned_of offset) s in
      write_config ecam d (aligned_of offset) (merge (2 ^ w - 1) (shift_of offset) old value) s'

  unfoldable pub read_bar : ℕ → PciDevice → ℕ → Io (Option (ℕ × Bool × Bool))
  read_bar ecam d bar =
      if ltb 5 bar
      then give none
      else (read_config ecam d (0x10 + bar * 4) then λ low.
          give
            (some (low, bit_and low 1 == 0, (bit_and low 1 == 0) && (bit_and (shr low 1) 3 == 2))))

  unfoldable pub bar_address : ℕ → PciDevice → ℕ → Io (Option ℕ)
  bar_address ecam d bar = read_bar ecam d bar then λ r. elim r [
    | none ↦ give none
    | some (low, is_mem, is_64) ↦
        if not is_mem
        then give (some (bit_and low 0xFFFFFFFC))
        else if is_64
        then (read_config ecam d (0x10 + bar * 4 + 4) then λ high.
            give (some (bit_or (shl 64 high 32) (bit_and low 0xFFFFFFF0))))
        else give (some (bit_and low 0xFFFFFFF0))
  ]

  abbrev pub write : ℕ → PciDevice → ℕ → ℕ → Io (Unit {0})
  write ecam d offset value s = (tt, write_config ecam d offset value s)

  -- The answer for a mask: `None` for an unimplemented register.
  abbrev pub sized : ℕ → ℕ → Option ℕ
  sized w mask = if mask == 0 then none else some (size_of_mask w mask)

  -- What `probe_bar_size` does behind its first register, by the kind of the register.
  unfoldable pub size_of_kind : ℕ → PciDevice → ℕ → ℕ → Option (ℕ × Bool × Bool) → Io (Option ℕ)
  size_of_kind ecam d offset masked_low none = give none
  size_of_kind ecam d offset masked_low (some (_, is_mem, is_64)) =
      if not is_mem
      then give (sized 32 (bit_and masked_low 0xFFFFFFFC))
      else if is_64
      then (read_config ecam d (offset + 4) then λ orig_high.
          write ecam d (offset + 4) 0xFFFFFFFF then λ _.
          read_config ecam d (offset + 4) then λ masked_high.
          write ecam d (offset + 4) orig_high then λ _.
          give (sized 64 (bit_or (shl 64 masked_high 32) (bit_and masked_low 0xFFFFFFF0))))
      else give (sized 32 (bit_and masked_low 0xFFFFFFF0))

  unfoldable pub probe_bar_size : ℕ → PciDevice → ℕ → Io (Option ℕ)
  probe_bar_size ecam d bar =
      if ltb 5 bar
      then give none
      else (let offset = 0x10 + bar * 4 in
          read_config ecam d offset then λ orig_low. write ecam d offset 0xFFFFFFFF then λ _.
          read_config ecam d offset then λ masked_low. write ecam d offset orig_low then λ _.
          read_bar ecam d bar then size_of_kind ecam d offset masked_low)

  unfoldable pub from_bsf : ℕ → ℕ → ℕ → ℕ → Io (Option PciDevice)
  from_bsf ecam bus slot func = read_config32 ecam bus slot func 0x0 then λ vendor_device.
      if bit_and vendor_device 0xFFFF == 0xFFFF
      then give none
      else (read_config32 ecam bus slot func 0x8 then λ class_reg. give (
          some (record {
            vendor_id = bit_and vendor_device 0xFFFF;
            device_id = bit_and (shr vendor_device 16) 0xFFFF;
            class_code = bit_and (shr class_reg 24) 0xFF;
            subclass = bit_and (shr class_reg 16) 0xFF;
            bus = bus;
            slot = slot;
            func = func;
          })))

  pub prog_if : ℕ → PciDevice → Io ℕ
  unfolding read_config
  prog_if ecam d = read_config ecam d 0x08 then λ v. give (bit_and (shr v 8) 0xFF)

  unfoldable pub enable_bus_master : ℕ → PciDevice → Io Bool
  enable_bus_master ecam d s =
      let (cmd, s1) = read_part 16 ecam d cmd_offset s in
      let s2 =
        write_part 16 ecam d cmd_offset (bit_or (bit_or cmd cmd_memory_enable) cmd_bus_master) s1 in
      let (verify, s3) = read_part 16 ecam d cmd_offset s2 in
      (not (bit_and verify cmd_bus_master == 0), s3)

  -- What the scan does with the answer of a function, with the `break` after a single-function device.
  unfoldable pub taken :
      (List PciDevice → Io (List PciDevice))
      → ℕ
      → ℕ
      → ℕ
      → ℕ
      → List PciDevice
      → Option PciDevice
      → Io (List PciDevice)
  taken rest ecam bus slot func devices none = rest devices
  taken rest ecam bus slot func devices (some d) =
      if func == 0
      then (read_config32 ecam bus slot 0 0x0 then λ v.
          if bit_and v (2 ^ 7) == 0 then give (devices ++ d ∷ []) else rest (devices ++ d ∷ []))
      else rest (devices ++ d ∷ [])

  -- The functions `8 - n`, ..., 7 of a slot.
  unfoldable pub scan_slot : ℕ → ℕ → ℕ → ℕ → List PciDevice → Io (List PciDevice)
  scan_slot ecam bus slot zero devices = give devices
  scan_slot ecam bus slot (suc n) devices =
      from_bsf ecam bus slot (7 - n)
      then taken (scan_slot ecam bus slot n) ecam bus slot (7 - n) devices

  unfoldable pub scan_slots : ℕ → ℕ → ℕ → List PciDevice → Io (List PciDevice)
  scan_slots ecam bus zero devices = give devices
  scan_slots ecam bus (suc n) devices =
      scan_slot ecam bus (31 - n) 8 devices then λ found. scan_slots ecam bus n found

  unfoldable pub scan_buses : ℕ → ℕ → List PciDevice → Io (List PciDevice)
  scan_buses ecam zero devices = give devices
  scan_buses ecam (suc n) devices =
      scan_slots ecam (255 - n) 32 devices then λ found. scan_buses ecam n found

  pub scan_pci_bus : ℕ → Io (List PciDevice)
  scan_pci_bus ecam = scan_buses ecam 256 []
