-- ===== src/Apic/Registers.antt =====
-- An entry that goes through the registers of the I/O APIC of kernel/src/apic.rs.
use lemoncake.Base.{ℕ, ◌+◌, ◌*◌, ◌/◌, ◌%◌, ◌^◌, bit_and, ◌<◌, ◌≢◌, shr, shl}
use lemoncake.Base.{◌≡◌, refl, ap, ◌∙◌, arith, and_low, sym}
use mathlib.Core.Path.{subst}
use lemoncake.Apic.Access.{Device}
use lemoncake.Apic.{
  RedTbl, flag, new, store, IoApic, read_redtlb, write_redtlb, set_sel, read, write,
}
use lemoncake.Apic.RoundTrip.{IsEntry, Agree, new-Agree, new-store, store-shape}

-- An I/O APIC at its address, as its data sheet has it: the first register selects the one that the
-- window at 0x10 reaches, a store to the window changes no other register, and of the two registers
-- of each of its 24 pins it keeps the bits that can be written. In the low register these are the
-- bits 0 to 16 but the delivery status, 12, and the remote IRR, 14, which the device has to itself;
-- in the high register the bits from 24 on.
pub record Indexed (device : Device) (a : IoApic) : Type 0 where
  pub selected : device.State → ℕ
  pub registers : device.State → ℕ → ℕ
  pub width : (i : ℕ) (s : device.State) → registers s i < 2 ^ 32
  pub loads :
      (s : device.State)
      → device.volatile_load (a.virt_address + 0x10) s ≡ (registers s (selected s), s)
  pub selects :
      (reg : ℕ) (s : device.State) → selected (device.volatile_store a.virt_address reg s) ≡ reg
  pub keeps :
      (reg i : ℕ) (s : device.State)
      → registers (device.volatile_store a.virt_address reg s) i ≡ registers s i
  pub others :
      (value i : ℕ) (s : device.State)
      → i ≢ selected s
      → registers (device.volatile_store (a.virt_address + 0x10) value s) i ≡ registers s i
  pub low :
      (value pin : ℕ) (s : device.State) (w : ℕ)
      → pin < 24
      → selected s ≡ 0x10 + 2 * pin
      → w ≡ registers (device.volatile_store (a.virt_address + 0x10) value s) (0x10 + 2 * pin)
      → (w % 2 ^ 12 ≡ value % 2 ^ 12)
        × (w / 2 ^ 13 % 2 ≡ value / 2 ^ 13 % 2)
        × (w / 2 ^ 15 % 4 ≡ value / 2 ^ 15 % 4)
  pub high :
      (value pin : ℕ) (s : device.State) (w : ℕ)
      → pin < 24
      → selected s ≡ 0x10 + 2 * pin + 1
      → w ≡ registers (device.volatile_store (a.virt_address + 0x10) value s) (0x10 + 2 * pin + 1)
      → w / 2 ^ 24 % 2 ^ 8 ≡ value / 2 ^ 24 % 2 ^ 8

module _ (device : Device) (a : IoApic) (indexed : Indexed device a) where
  open device use {State}
  open indexed use {registers, width, loads, selects, keeps, others, low, high}

  pub read_lem :
      (reg : ℕ) (s : State) → read device a reg s ≡ (registers s reg, set_sel device a reg s)
  unfolding read set_sel
  read_lem reg s = rw (loads, selects, keeps) refl

  pub write-others :
      (reg value i : ℕ) (s : State)
      → i ≢ reg
      → registers (write device a reg value s) i ≡ registers s i
  unfolding write set_sel
  write-others reg value i s ne =
      let sel = set_sel device a reg s in
      others value i sel (subst (λ r. i ≢ r) (sym (selects reg s)) ne) ∙ keeps reg i s

  pub set_sel-registers :
      (reg k : ℕ) (s : State) → registers (set_sel device a reg s) k ≡ registers s k
  unfolding set_sel
  set_sel-registers reg k s = keeps reg k s

  -- The two registers of a pin as one word.
  unfoldable pub word_at : ℕ → State → ℕ
  word_at i s = shl 64 (registers s (0x10 + 2 * i + 1)) 32 + registers s (0x10 + 2 * i)

  pub read_redtlb_lem : (i : ℕ) (s : State) → (read_redtlb device a i s).0 ≡ word_at i s
  unfolding read_redtlb word_at
  read_redtlb_lem i s =
      let lo = 0x10 + 2 * i in
      rw (read_lem lo s, read_lem (lo + 1) (set_sel device a lo s), set_sel-registers lo (lo + 1) s)
        refl

  -- What a pin's registers keep of a word, and the bit 16, which is not written.
  read-write :
      (i v n : ℕ) (s : State)
      → i < 24
      → n ≡ (read_redtlb device a i (write_redtlb device a i v s)).0
      → v < 2 ^ 64
      → Agree n v × (n / 2 ^ 16 % 2 ≡ 0)
  unfolding write_redtlb write set_sel word_at
  read-write i v n s h is small =
      let lo = 0x10 + 2 * i in
      let hi = lo + 1 in
      let first = write device a lo (bit_and v 0xffff) s in
      let both = write device a hi (shr v 32) first in
      let word : n ≡ shl 64 (registers both hi) 32 + registers both lo =
        is ∙ read_redtlb_lem i both in
      let kept : registers both lo ≡ registers first lo =
        write-others hi (shr v 32) lo first (λ e. omega (arith, e)) in
      let below =
        low (bit_and v 0xffff) i (set_sel device a lo s) (registers first lo) h (selects lo s)
          refl in
      let above =
        high (shr v 32) i (set_sel device a hi first) (registers both hi) h (selects hi first)
          refl in
      let mask = and_low 16 v in
      let wide = width hi both in
      let narrow = width lo both in
      (
        record {
          low = omega (arith, word, kept, below.0, mask, wide, narrow);
          middle = omega (arith, word, kept, below.1, mask, wide, narrow);
          top = omega (arith, word, kept, below.2, mask, wide, narrow);
          destination = omega (arith, word, above, wide, narrow, small);
        },
        omega (arith, word, kept, below.2, mask, wide, narrow),
      )

  -- An entry whose numbers fit their fields, written to one of the 24 pins of an I/O APIC: what is
  -- read back from this pin has all its fields, but that the pin polarity and the trigger mode are
  -- the device's own bits 12 and 14; and its bit 16, which masks the pin, is clear.
  pub redtlb_round :
      (i n : ℕ) (r : RedTbl) (s : State)
      → i < 24
      → IsEntry r
      → n ≡ (read_redtlb device a i (write_redtlb device a i (store r) s)).0
      → (new n ≡ record r { pin_polarity = flag n 12; trigger_mode = flag n 14 })
        × (n / 2 ^ 16 % 2 ≡ 0)
  redtlb_round i n r s h entry is =
      let (agree, clear) = read-write i (store r) n s h is (store-shape r entry).0 in
      (
        new-Agree n (store r) agree
            ∙ ap (λ (x : RedTbl). record x { pin_polarity = flag n 12; trigger_mode = flag n 14 })
                (new-store r entry),
        clear,
      )
