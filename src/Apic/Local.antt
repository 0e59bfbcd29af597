-- ===== src/Apic/Local.antt =====
-- `LocalApic` and `disable_pic` of kernel/src/apic.rs. A register is at its offset behind the address
-- of the local APIC; the sums do not overflow, since a register is in the page of that address.
use lemoncake.Base.{ℕ, zero, suc, ◌+◌, ◌^◌, ◌%◌, bit_and, bit_or, ◌==◌, if◌then◌else◌, shl, shr}
use lemoncake.Base.{Option, none, some, Run, done, panic, ◌>>=◌, add_w, List, [], ◌∷◌}
use lemoncake.Pages.{canonical}
use lemoncake.Apic.Access.{Cpu}

-- `LocalApic`, with its address
pub record LocalApic : Type 0 where
  pub virt_address : ℕ

module _ (cpu : Cpu) where
  open cpu use {device, offset, read_msr, write_msr, port_out}
  open device use {State, volatile_load, volatile_store}

  unfoldable pub read : LocalApic → ℕ → State → ℕ × State
  read a reg s = volatile_load (a.virt_address + reg) s

  unfoldable pub write : LocalApic → ℕ → ℕ → State → State
  write a reg value s = volatile_store (a.virt_address + reg) value s

  pub id : LocalApic → State → ℕ × State
  unfolding read
  id a s = read a 0x20 s

  pub version : LocalApic → State → ℕ × State
  unfolding read
  version a s = read a 0x30 s

  pub icr : LocalApic → State → ℕ × State
  unfolding read
  icr a s =
      let (high, s1) = read a 0x310 s in
      let (low, s2) = read a 0x300 s1 in (bit_or (shl 64 high 32) low, s2)

  -- `while self.read(0x300) & PENDING == PENDING`, on fuel.
  pub wait_sent : ℕ → LocalApic → State → Option State
  unfolding read
  wait_sent zero a s = none
  wait_sent (suc n) a s =
      let (command, s') = read a 0x300 s in
      let rest = wait_sent n a s' in if bit_and command 0x1000 == 0x1000 then rest else some s'

  pub set_icr : ℕ → LocalApic → ℕ → State → Option State
  unfolding wait_sent write
  set_icr fuel a value s = elim (wait_sent fuel a s) [
    | none ↦ none
    | some s1 ↦ wait_sent fuel a (write a 0x300 (value % 2 ^ 32) (write a 0x310 (shr value 32) s1))
  ]

  pub ipi : ℕ → LocalApic → ℕ → State → Option State
  unfolding set_icr
  ipi fuel a apic_id s = set_icr fuel a (bit_or 0x4040 (shl 64 apic_id 56)) s

  pub ipi_nmi : ℕ → LocalApic → ℕ → State → Option State
  unfolding set_icr
  ipi_nmi fuel a apic_id s = set_icr fuel a (bit_or (bit_or (shl 64 apic_id 56) 0x4000) 0x400) s

  unfoldable pub eoi : LocalApic → State → State
  unfolding write
  eoi a s = write a 0xB0 0 s

  pub esr : LocalApic → State → ℕ × State
  unfolding read write
  esr a s = read a 0x280 (write a 0x280 0 s)

  pub lvt_timer : LocalApic → State → ℕ × State
  unfolding read
  lvt_timer a s = read a 0x320 s

  unfoldable pub set_lvt_timer : LocalApic → ℕ → State → State
  unfolding write
  set_lvt_timer a value s = write a 0x320 value s

  pub init_count : LocalApic → State → ℕ × State
  unfolding read
  init_count a s = read a 0x380 s

  unfoldable pub set_init_count : LocalApic → ℕ → State → State
  unfolding write
  set_init_count a initial_count s = write a 0x380 initial_count s

  pub cur_count : LocalApic → State → ℕ × State
  unfolding read
  cur_count a s = read a 0x390 s

  pub div_conf : LocalApic → State → ℕ × State
  unfolding read
  div_conf a s = read a 0x3E0 s

  unfoldable pub set_div_conf : LocalApic → ℕ → State → State
  unfolding write
  set_div_conf a value s = write a 0x3E0 value s

  pub lvt_error : LocalApic → State → ℕ × State
  unfolding read
  lvt_error a s = read a 0x370 s

  pub set_lvt_error : LocalApic → ℕ → State → State
  unfolding write
  set_lvt_error a value s = write a 0x370 value s

  pub setup_error_int : LocalApic → State → State
  unfolding set_lvt_error
  setup_error_int a s = set_lvt_error a 49 s

  -- A byte to a port, and then `wait`.
  unfoldable pub command : ℕ → ℕ → State → State
  command port value s = port_out 0x80 0 (port_out port value s)

  unfoldable pub commands : List (ℕ × ℕ) → State → State
  unfolding command
  commands [] s = s
  commands ((port, value) ∷ rest) s = commands rest (command port value s)

  unfoldable pub disable_pic : State → State
  unfolding commands
  disable_pic s =
      commands
        ((0x20, 0x11)
          ∷ (0xA0, 0x11)
          ∷ (0x21, 0xf0)
          ∷ (0xA1, 0xf8)
          ∷ (0x21, 0x4)
          ∷ (0xA1, 0x2)
          ∷ (0x21, 0x1)
          ∷ (0xA1, 0x1)
          ∷ (0x21, 0xff)
          ∷ (0xA1, 0xff)
          ∷ [])
        s

  -- `LAPIC.get_or_init`
  abbrev pub get_or_init : Option LocalApic → ℕ → LocalApic
  get_or_init none address = record { virt_address = address }
  get_or_init (some a) address = a

  -- The static `LAPIC` before the call, and the local APIC that is in it afterwards.
  unfoldable pub init : Option LocalApic → ℕ → State → Run (LocalApic × State)
  unfolding disable_pic read write
  init lapic local_apic_address s = do
    let s1 = disable_pic s
    address ← add_w 64 local_apic_address offset
    virtaddr ← (if canonical address then done address else panic)
    let a = get_or_init lapic virtaddr
    let (r, s2) = read_msr 0x1B s1
    let (spurious, s3) = read a 0xF0 (write_msr 0x1B (bit_or r (2 ^ 11)) s2)
    done (a, write a 0xF0 (bit_or spurious 0x1FF) s3)
