-- ===== src/Pci/Scan.antt =====
-- `scan_pci_bus` of kernel/src/pci.rs on buses whose identification registers do not change.
use lemoncake.Base.{
  ℕ, zero, suc, ◌+◌, ◌-◌, ◌/◌, ◌%◌, ◌^◌, ◌<◌, ◌≡◌, sym, ap, ◌∙◌, arith, ◌==◌, refl, Option, some,
  none, List, [], ◌∷◌, ◌++◌, if◌then◌else◌, true, false, Bool-cases, ≢→==, inl, inr,
}
use lemoncake.Base.{bit_and, and_low, and_bit}
use lemoncake.Pci.{
  PciDevice, read_config32, from_bsf, taken, scan_slot, scan_slots, scan_buses, scan_pci_bus,
}
use mathlib.Core.List.{append-nil, append_assoc}
use lemoncake.Pci.Access.{Machine}

-- The registers of bus, slot, function and offset.
abbrev pub Words : Type 0
Words = ℕ → ℕ → ℕ → ℕ → ℕ

abbrev pub Fixed : Machine → ℕ → Words → Type 0
Fixed machine ecam words =
    (bus slot func offset : ℕ) (s : machine.State)
    → (read_config32 machine ecam bus slot func offset s).0 ≡ words bus slot func offset

-- The function that answers, if any: the vendor 0xFFFF is nobody.
abbrev pub device_at : Words → ℕ → ℕ → ℕ → List PciDevice
device_at words bus slot func =
    let identity = words bus slot func 0 in
    let class_reg = words bus slot func 8 in
    if identity % 2 ^ 16 == 0xFFFF
    then []
    else record {
      vendor_id = identity % 2 ^ 16;
      device_id = identity / 2 ^ 16 % 2 ^ 16;
      class_code = class_reg / 2 ^ 24 % 2 ^ 8;
      subclass = class_reg / 2 ^ 16 % 2 ^ 8;
      bus = bus;
      slot = slot;
      func = func;
    }
      ∷ []

-- `f first ++ f (first + 1) ++ ...`, for `n` numbers
pub gather : (ℕ → List PciDevice) → ℕ → ℕ → List PciDevice
gather f first zero = []
gather f first (suc n) = f first ++ gather f (suc first) n

-- A slot with a device at function 0 whose bit 7 of the identity is clear has that device alone.
abbrev pub slot_from : Words → ℕ → ℕ → List PciDevice → List PciDevice
slot_from words bus slot [] = gather (device_at words bus slot) 1 7
slot_from words bus slot (d ∷ _) =
    if words bus slot 0 0 / 2 ^ 7 % 2 == 0
    then d ∷ []
    else d ∷ gather (device_at words bus slot) 1 7

abbrev pub slot_devices : Words → ℕ → ℕ → List PciDevice
slot_devices words bus slot = slot_from words bus slot (device_at words bus slot 0)

abbrev pub bus_devices : Words → ℕ → List PciDevice
bus_devices words bus = gather (slot_devices words bus) 0 32

-- The device of `from_bsf` as a list.
abbrev listed : Option PciDevice → List PciDevice
listed none = []
listed (some d) = d ∷ []

module _ (machine : Machine) (ecam : ℕ) (words : Words) (fixed : Fixed machine ecam words) where
  from_bsf_lem :
      (bus slot func : ℕ) (s : machine.State)
      → listed (from_bsf machine ecam bus slot func s).0 ≡ device_at words bus slot func
  unfolding from_bsf
  from_bsf_lem bus slot func s =
      let identity = words bus slot func 0 in
      let class_reg = words bus slot func 8 in
      let first = fixed bus slot func 0 s in
      let second = fixed bus slot func 8 (read_config32 machine ecam bus slot func 0 s).1 in
      elim (Bool-cases (identity % 2 ^ 16 == 0xFFFF)) [
        | inl nobody ↦ rw (first, and_low 16 identity, nobody) refl
        | inr somebody ↦
            rw
              (
                first,
                and_low 16 identity,
                somebody,
                second,
                and_low 16 (identity / 2 ^ 16),
                and_low 8 (class_reg / 2 ^ 24),
                and_low 8 (class_reg / 2 ^ 16),
              )
              refl
      ]

  -- Behind function 0 every device is taken.
  taken_lem :
      (rest : List PciDevice → machine.State → List PciDevice × machine.State)
      (more : List PciDevice)
      → ((devices : List PciDevice) (s : machine.State) → (rest devices s).0 ≡ devices ++ more)
      → (bus slot func : ℕ) (devices : List PciDevice) (o : Option PciDevice) (s : machine.State)
      → 0 < func
      → (taken machine rest ecam bus slot func devices o s).0 ≡ devices ++ (listed o ++ more)
  unfolding taken
  taken_lem rest more law bus slot func devices none s h = law devices s
  taken_lem rest more law bus slot func devices (some d) s h =
      rw (≢→== func 0 (omega arith))
        (law (devices ++ d ∷ []) s ∙ append_assoc devices (d ∷ []) more)

  -- The functions from `func` on.
  scan_rest :
      (bus slot n func : ℕ) (devices : List PciDevice) (s : machine.State)
      → func + n ≡ 8
      → 0 < func
      → (scan_slot machine ecam bus slot n devices s).0
        ≡ devices ++ gather (device_at words bus slot) func n
  unfolding scan_slot gather
  scan_rest bus slot zero func devices s e h = sym (append-nil devices)
  scan_rest bus slot (suc n) func devices s e h =
      let here : 7 - n ≡ func = omega arith in
      let more = gather (device_at words bus slot) (suc func) n in
      taken_lem (scan_slot machine ecam bus slot n) more
        (λ devices' s'. scan_rest bus slot n (suc func) devices' s' (omega arith) (omega arith)) bus
        slot (7 - n) devices (from_bsf machine ecam bus slot (7 - n) s).0
        (from_bsf machine ecam bus slot (7 - n) s).1 (omega arith)
      ∙ ap (λ found. devices ++ (found ++ more))
          (from_bsf_lem bus slot (7 - n) s ∙ ap (device_at words bus slot) here)

  first_taken :
      (bus slot : ℕ) (devices : List PciDevice) (o : Option PciDevice) (s : machine.State)
      → (taken machine (scan_slot machine ecam bus slot 7) ecam bus slot 0 devices o s).0
        ≡ devices ++ slot_from words bus slot (listed o)
  unfolding taken
  first_taken bus slot devices none s = scan_rest bus slot 7 1 devices s refl (omega arith)
  first_taken bus slot devices (some d) s =
      let identity = words bus slot 0 0 in
      let answered = fixed bus slot 0 0 s in
      let s' = (read_config32 machine ecam bus slot 0 0 s).1 in
      let later =
        scan_rest bus slot 7 1 (devices ++ d ∷ []) s' refl (omega arith)
        ∙ append_assoc devices (d ∷ []) (gather (device_at words bus slot) 1 7) in
      elim (Bool-cases (identity / 2 ^ 7 % 2 == 0)) [
        | inl single ↦
            let clear : (bit_and identity (2 ^ 7) == 0) ≡ true =
              ground (arith, and_bit 7 identity) in
            rw (answered, clear, single) refl
        | inr several ↦
            let set : (bit_and identity (2 ^ 7) == 0) ≡ false =
              ground (arith, and_bit 7 identity) in
            rw (answered, set, several) later
      ]

  scan_step :
      (bus slot n : ℕ) (devices : List PciDevice) (s : machine.State)
      → scan_slot machine ecam bus slot (suc n) devices s
        ≡ taken machine
            (scan_slot machine ecam bus slot n)
            ecam
            bus
            slot
            (7 - n)
            devices
            (from_bsf machine ecam bus slot (7 - n) s).0
            (from_bsf machine ecam bus slot (7 - n) s).1
  unfolding scan_slot
  scan_step bus slot n devices s = refl

  scan_slot_lem :
      (bus slot : ℕ) (devices : List PciDevice) (s : machine.State)
      → (scan_slot machine ecam bus slot 8 devices s).0 ≡ devices ++ slot_devices words bus slot
  scan_slot_lem bus slot devices s =
      ap (λ r. r.0) (scan_step bus slot 7 devices s)
      ∙ first_taken bus slot devices (from_bsf machine ecam bus slot 0 s).0
          (from_bsf machine ecam bus slot 0 s).1
      ∙ ap (λ there. devices ++ slot_from words bus slot there) (from_bsf_lem bus slot 0 s)

  scan_slots_lem :
      (bus n slot : ℕ) (devices : List PciDevice) (s : machine.State)
      → slot + n ≡ 32
      → (scan_slots machine ecam bus n devices s).0
        ≡ devices ++ gather (slot_devices words bus) slot n
  unfolding scan_slots gather
  scan_slots_lem bus zero slot devices s e = sym (append-nil devices)
  scan_slots_lem bus (suc n) slot devices s e =
      let here : 31 - n ≡ slot = omega arith in
      let (found, s') = scan_slot machine ecam bus (31 - n) 8 devices s in
      scan_slots_lem bus n (suc slot) found s' (omega arith)
      ∙ ap (λ l. l ++ gather (slot_devices words bus) (suc slot) n)
          (scan_slot_lem bus (31 - n) devices s
            ∙ ap (λ t. devices ++ slot_devices words bus t) here)
      ∙ append_assoc devices (slot_devices words bus slot)
          (gather (slot_devices words bus) (suc slot) n)

  scan_buses_lem :
      (n bus : ℕ) (devices : List PciDevice) (s : machine.State)
      → bus + n ≡ 256
      → (scan_buses machine ecam n devices s).0 ≡ devices ++ gather (bus_devices words) bus n
  unfolding scan_buses gather
  scan_buses_lem zero bus devices s e = sym (append-nil devices)
  scan_buses_lem (suc n) bus devices s e =
      let here : 255 - n ≡ bus = omega arith in
      let (found, s') = scan_slots machine ecam (255 - n) 32 devices s in
      scan_buses_lem n (suc bus) found s' (omega arith)
      ∙ ap (λ l. l ++ gather (bus_devices words) (suc bus) n)
          (scan_slots_lem (255 - n) 32 0 devices s refl
            ∙ ap (λ t. devices ++ bus_devices words t) here)
      ∙ append_assoc devices (bus_devices words bus) (gather (bus_devices words) (suc bus) n)

  -- Where the identification registers do not change: the scan answers, bus by bus and slot by slot,
  -- the functions whose vendor is not 0xFFFF, in order and each with its own registers; of a slot
  -- whose function 0 answers with bit 7 of its register 0 clear it answers function 0 alone.
  pub scan_pci_bus_lem :
      (s : machine.State) → (scan_pci_bus machine ecam s).0 ≡ gather (bus_devices words) 0 256
  unfolding scan_pci_bus
  scan_pci_bus_lem s = scan_buses_lem 256 0 [] s refl
