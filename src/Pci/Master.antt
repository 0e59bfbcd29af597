-- ===== src/Pci/Master.antt =====
-- `enable_bus_master` of kernel/src/pci.rs on a command register.
use lemoncake.Base.{ℕ, true, ◌+◌, ◌*◌, ◌/◌, ◌%◌, ◌^◌, ◌<◌, ◌≡◌, sym, ap, ◌∙◌, arith, ◌↔◌, not, ◌==◌}
use lemoncake.Base.{bit_or, bit_and, set_low, set_bit, and_bit}
use lemoncake.Pci.{
  PciDevice, cmd_offset, cmd_memory_enable, cmd_bus_master, enable_bus_master, read_part,
  write_part,
}
use lemoncake.Pci.Access.{Machine}
use lemoncake.Pci.Registers.{Register}
use lemoncake.Pci.Parts.{low_half, read_part_lem, write_part_lem}

-- The word with its bits 0 and 2 set.
abbrev pub enabled : ℕ → ℕ
enabled w = w / 8 * 8 + 4 + w / 2 % 2 * 2 + 1

set_bits : (c : ℕ) → bit_or (bit_or c cmd_memory_enable) cmd_bus_master ≡ enabled c
set_bits c =
    let halves : c / 2 * 2 + c % 2 ≡ c = omega arith in
    let first : bit_or c 1 ≡ (c / 8 * 2 + c / 4 % 2) * 4 + (c / 2 % 2 * 2 + 1) =
      ap (λ t. bit_or t 1) (sym halves) ∙ set_low (c / 2) (c % 2) (omega arith) ∙ omega arith in
    ap (λ t. bit_or t 4) first
    ∙ set_bit 2 (c / 8) (c / 4 % 2) (c / 2 % 2 * 2 + 1) (omega arith) (omega arith)
    ∙ omega arith

third_bit : (x : ℕ) → (not (bit_and x cmd_bus_master == 0) ≡ true) ↔ (x / 4 % 2 ≡ 1)
third_bit x = (ground (arith, and_bit 2 x), ground (arith, and_bit 2 x))

module _ (machine : Machine) (ecam : ℕ) (d : PciDevice) (settle : ℕ → ℕ → ℕ)
    (command : Register machine ecam d 4 settle) (s : machine.State) where
  abbrev read : machine.State → ℕ × machine.State
  read = read_part machine 16 ecam d cmd_offset

  abbrev asked : ℕ
  asked = bit_or (bit_or (read s).0 cmd_memory_enable) cmd_bus_master

  abbrev after : machine.State
  after = write_part machine 16 ecam d cmd_offset asked (read s).1

  asked_lem : asked ≡ enabled (command.word s % 2 ^ 16)
  asked_lem =
      let (value, _) = read_part_lem machine ecam d 1 (omega arith) settle command low_half s in
      set_bits (read s).0 ∙ ap enabled value ∙ omega arith

  after_lem : command.word after ≡ settle (command.word s) (enabled (command.word s))
  after_lem =
      let (_, kept) = read_part_lem machine ecam d 1 (omega arith) settle command low_half s in
      let small : asked < 2 ^ 16 = rw asked_lem (omega arith) in
      write_part_lem machine ecam d 1 (omega arith) settle command low_half asked (read s).1 small
      ∙ rw (kept, asked_lem) (ap (settle (command.word s)) (omega arith))

  -- On a command register that makes anything of what is written to it: `enable_bus_master` writes
  -- the old word with its bits 0 and 2 set and all other bits kept, the upper half included, leaves
  -- the register as it settles, and answers true exactly when bit 2 is then set.
  pub enable_bus_master-settles :
      (command.word (enable_bus_master machine ecam d s).1
        ≡ settle (command.word s) (enabled (command.word s)))
      × (((enable_bus_master machine ecam d s).0 ≡ true)
          ↔ (command.word (enable_bus_master machine ecam d s).1 / 4 % 2 ≡ 1))
  unfolding enable_bus_master
  enable_bus_master-settles =
      let (value, kept) =
        read_part_lem machine ecam d 1 (omega arith) settle command low_half after in
      let (there, back) = third_bit (read after).0 in
      (
        kept ∙ after_lem,
        (λ h. omega (arith, there h, value, kept), λ h. back (omega (arith, h, value, kept))),
      )
