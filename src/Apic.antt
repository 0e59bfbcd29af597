-- ===== src/Apic.antt =====
-- kernel/src/apic.rs: the redirection entries of the I/O APIC and the two registers that reach
-- them.
pub mod Access
pub mod Local
pub mod RoundTrip
pub mod Registers
pub mod Samples
mod Tests
use lemoncake.Base.{ℕ, ◌+◌, ◌*◌, ◌/◌, ◌%◌, ◌^◌, bit_and, ◌==◌, if◌then◌else◌, Bool, not, shl, shr}
use Access.{Device}

pub record RedTbl : Type 0 where
  pub vector : ℕ
  pub delivery_mode : ℕ
  pub destination_mode : Bool
  pub delivery_status : Bool
  pub pin_polarity : Bool
  pub remote_irr : Bool
  pub trigger_mode : Bool
  pub mask : Bool
  pub destination : ℕ

-- `c & 0b1 != 0` after the shifts before it
unfoldable pub flag : ℕ → ℕ → Bool
flag c k = not (bit_and (shr c k) 1 == 0)

unfoldable pub new : ℕ → RedTbl
unfolding flag
new n =
    let c1 = shr n 8 in
    let c2 = shr c1 2 in
    record {
      vector = bit_and n 0xff;
      delivery_mode = bit_and c1 3;
      destination_mode = flag c2 0;
      delivery_status = flag (shr c2 1) 0;
      pin_polarity = flag (shr (shr c2 1) 1) 0;
      remote_irr = flag (shr (shr (shr c2 1) 1) 1) 0;
      trigger_mode = flag (shr (shr (shr (shr c2 1) 1) 1) 1) 0;
      mask = flag (shr (shr (shr (shr (shr c2 1) 1) 1) 1) 1) 0;
      destination = shr n 56 % 2 ^ 8;
    }

-- `if b { 1 } else { 0 } << k`
abbrev pub bit : Bool → ℕ → ℕ
bit b k = shl 64 (if b then 1 else 0) k

-- The fields are disjoint, so that no sum overflows.
unfoldable pub store : RedTbl → ℕ
store r =
    shl 64 r.destination 56
    + r.vector
    + shl 64 r.delivery_mode 8
    + bit r.destination_mode 10
    + bit r.delivery_status 11
    + bit r.pin_polarity 12
    + bit r.remote_irr 13
    + bit r.trigger_mode 14
    + bit r.mask 15

-- The address of its registers; the other fields are its identity.
pub record IoApic : Type 0 where
  pub virt_address : ℕ
  pub global_system_int : ℕ
  pub id : ℕ

module _ (device : Device) where
  open device use {State, volatile_load, volatile_store}

  unfoldable pub set_sel : IoApic → ℕ → State → State
  set_sel a reg s = volatile_store a.virt_address reg s

  unfoldable pub read : IoApic → ℕ → State → ℕ × State
  unfolding set_sel
  read a reg s = volatile_load (a.virt_address + 0x10) (set_sel a reg s)

  unfoldable pub write : IoApic → ℕ → ℕ → State → State
  unfolding set_sel
  write a reg value s = volatile_store (a.virt_address + 0x10) value (set_sel a reg s)

  unfoldable pub read_redtlb : IoApic → ℕ → State → ℕ × State
  unfolding read
  read_redtlb a index s =
      let (low, s1) = read a (0x10 + 2 * index) s in
      let (high, s2) = read a (0x10 + 2 * index + 1) s1 in (shl 64 high 32 + low, s2)

  unfoldable pub write_redtlb : IoApic → ℕ → ℕ → State → State
  unfolding write
  write_redtlb a index redtlb s =
      write a (0x10 + 2 * index + 1) (shr redtlb 32)
        (write a (0x10 + 2 * index) (bit_and redtlb 0xffff) s)
