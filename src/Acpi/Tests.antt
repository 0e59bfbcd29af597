-- ===== src/Acpi/Tests.antt =====
-- The set-up of the configuration space on a small address space, for kernel/src/acpi.rs.
use lemoncake.Base.{
  ℕ, zero, suc, ◌<◌, ◌≢◌, ◌==◌, if◌then◌else◌, ◌≡◌, refl, inr, arith, Option, none, some, done,
}
use lemoncake.Pages.Samples.{Counter, counter_space, counter_tables}
use lemoncake.Acpi.{McfgEntry, init_pcie_from_acpi}
use lemoncake.Acpi.Region.{Linear, init_pcie_from_acpi-Linear}

abbrev empty : Counter (Unit {0})
empty = (10000, (λ p. none), tt)

abbrev nothing : ℕ → Counter (Unit {0}) → Option ℕ
nothing addr s = none

-- An entry of another segment, and the entry of the segment 0 with two buses.
abbrev entries : ℕ → McfgEntry
entries i = record {
  base_address = 0xb0000000;
  pci_segment_group = (if i == 0 then 1 else 0);
  start_bus = 0;
  end_bus = 1;
  reserved = 0;
}

abbrev memory_offset : ℕ
memory_offset = 0xffff900000000000

first_other : (j : ℕ) → j < 1 → (entries j).pci_segment_group ≢ 0
first_other zero h = λ e. omega (arith, e)
first_other (suc j) h = absurd (omega (arith, h))

init_pcie_from_acpi-Linear_example :
    (s' : Counter (Unit {0})) × (init_pcie_from_acpi
        (counter_space (Unit {0}))
        nothing
        memory_offset
        (some (76, entries))
        empty
      ≡ done (inr 0xffff9000b0000000, s'))
    × Linear
        (counter_space (Unit {0}))
        nothing
        memory_offset
        (counter_tables (Unit {0}))
        0xffff9000b0000
        0xb0000
        512
        empty
        s'
init_pcie_from_acpi-Linear_example =
    init_pcie_from_acpi-Linear (counter_space (Unit {0})) nothing memory_offset
      (counter_tables (Unit {0})) 2 1 entries 0xb0000 2 empty (omega arith) refl
      (λ j h. first_other j h) refl refl (omega arith) (omega arith) (omega arith) refl
      (record { high = omega arith; whole = refl; fits = omega arith }) refl (omega arith)
      (λ i h. refl)
