-- ===== src/Apic/Samples.antt =====
-- An I/O APIC that stores what can be written of a register, for kernel/src/apic.rs.
use lemoncake.Base.{
  ℕ, ◌+◌, ◌*◌, ◌/◌, ◌%◌, ◌^◌, ◌==◌, if◌then◌else◌, ◌≡◌, refl, ◌∙◌, arith, ≢→==, ==_refl,
}
use lemoncake.Apic.Access.{Device}
use lemoncake.Apic.{IoApic}
use lemoncake.Apic.Registers.{Indexed}

-- The selected register, and all registers.
abbrev pub Registers : Type 0
Registers = ℕ × (ℕ → ℕ)

-- The bits that can be written; the bits 12 and 14 are clear.
abbrev pub written : ℕ → ℕ
written v =
    v % 2 ^ 12 + v / 2 ^ 13 % 2 * 2 ^ 13 + v / 2 ^ 15 % 4 * 2 ^ 15 + v / 2 ^ 24 % 2 ^ 8 * 2 ^ 24

abbrev pub chip : Device
chip = record {
  State = Registers;
  volatile_load = λ address s. (s.1 s.0 % 2 ^ 32, s);
  volatile_store = λ address value s.
      if address == 4096
      then (value, s.1)
      else (s.0, λ i. if i == s.0 then written value else s.1 i);
}

abbrev pub io_apic : IoApic
io_apic = record { virt_address = 4096; global_system_int = 0; id = 1 }

chosen :
    (value i selected : ℕ) (old : ℕ → ℕ)
    → selected ≡ i
    → (if i == selected then written value else old i) % 2 ^ 32 ≡ written value % 2 ^ 32
chosen value i selected old e = rw (e, ==_refl i) refl

pub chip-Indexed : Indexed chip io_apic
chip-Indexed = record {
  selected = λ s. s.0;
  registers = λ s i. s.1 i % 2 ^ 32;
  width = λ i s. omega arith;
  loads = λ s. refl;
  selects = λ reg s. refl;
  keeps = λ reg i s. refl;
  others = λ value i s ne. rw (≢→== i s.0 ne) refl;
  low = λ value pin s w h at is.
      let e : w ≡ written value % 2 ^ 32 = is ∙ chosen value (0x10 + 2 * pin) s.0 s.1 at in
      (omega (arith, e), omega (arith, e), omega (arith, e));
  high = λ value pin s w h at is.
      let e : w ≡ written value % 2 ^ 32 = is ∙ chosen value (0x10 + 2 * pin + 1) s.0 s.1 at in
      omega (arith, e);
}
