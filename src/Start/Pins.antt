-- ===== src/Start/Pins.antt =====
-- The pins of the I/O APIC behind the loop of kernel/src/main.rs.
use lemoncake.Base.{
  ℕ, zero, suc, ◌+◌, ◌*◌, ◌/◌, ◌%◌, ◌^◌, ◌≤◌, ◌<◌, ◌≡◌, ◌⊎◌, inl, inr, refl, sym, ap, ◌∙◌, arith,
  bit_and, shr, and_low,
}
use lemoncake.Base.{◌==◌, Bool-cases, ==→≡, ==→≢, some, ltb, ◌≢◌}
use mathlib.Core.Path.{subst}
use lemoncake.Apic.Access.{Device}
use lemoncake.Apic.{RedTbl, flag, new, IoApic, read_redtlb, write_redtlb, set_sel, write}
use lemoncake.Apic.RoundTrip.{IsEntry}
use lemoncake.Apic.Registers.{
  Indexed, read_lem, write-others, set_sel-registers, word_at, read_redtlb_lem, redtlb_round,
}
use lemoncake.Interrupts.{Handler, idt}
use lemoncake.Interrupts.Vectors.{idt-pins}
use lemoncake.Start.{setup_pin, setup_pins}

new-IsEntry : (n : ℕ) → IsEntry (new n)
unfolding new
new-IsEntry n = (omega (arith, and_low 8 n), omega (arith, and_low 2 (n / 2 ^ 8)), omega arith)

module _ (device : Device) (a : IoApic) (indexed : Indexed device a) where
  open device use {State}
  open indexed use {registers, keeps}

  -- The two registers of a pin as one word, and the entry that the code reads from them.
  abbrev pub word : ℕ → State → ℕ
  word i s = (read_redtlb device a i s).0

  abbrev pub entry : ℕ → State → RedTbl
  entry i s = new (word i s)

  read-registers : (i k : ℕ) (s : State) → registers (read_redtlb device a i s).1 k ≡ registers s k
  unfolding read_redtlb
  read-registers i k s =
      let lo = 0x10 + 2 * i in
      rw
        (read_lem device a indexed lo s, read_lem device a indexed (lo + 1) (set_sel device a lo s))
        (set_sel-registers device a indexed (lo + 1) k (set_sel device a lo s)
          ∙ set_sel-registers device a indexed lo k s)

  -- A pin's registers are written, and no others.
  write-registers :
      (i v k : ℕ) (s : State)
      → (k < 0x10 + 2 * i) ⊎ (0x10 + 2 * i + 1 < k)
      → registers (write_redtlb device a i v s) k ≡ registers s k
  unfolding write_redtlb
  write-registers i v k s h =
      let lo = 0x10 + 2 * i in
      write-others device a indexed (lo + 1) (shr v 32) k (write device a lo (bit_and v 0xffff) s)
        (λ e. ground arith)
      ∙ write-others device a indexed lo (bit_and v 0xffff) k s (λ e. ground arith)

  word_at-same :
      (i : ℕ) (s s' : State)
      → ((k : ℕ) → (0x10 + 2 * i ≤ k) → (k ≤ 0x10 + 2 * i + 1) → registers s' k ≡ registers s k)
      → word i s' ≡ word i s
  unfolding word_at
  word_at-same i s s' same =
      let lo = 0x10 + 2 * i in
      let first = same lo (omega arith) (omega arith) in
      let second = same (lo + 1) (omega arith) (omega arith) in
      read_redtlb_lem device a indexed i s'
      ∙ rw (first, second) (sym (read_redtlb_lem device a indexed i s))

  -- What a pin's word is made of: its old entry with the vector `50 + i` and with the bits 12 and 14
  -- of the device, and no mask, which is the bit 16.
  pub record Routed (i : ℕ) (old : RedTbl) (n : ℕ) : Type 0 where
    pub fields :
        new n ≡ record old { vector = 50 + i; pin_polarity = flag n 12; trigger_mode = flag n 14 }
    pub unmasked : n / 2 ^ 16 % 2 ≡ 0

  setup_pin-own :
      (i : ℕ) (s : State) → i < 24 → Routed i (entry i s) (word i (setup_pin device a i s))
  unfolding setup_pin
  setup_pin-own i s h =
      let (n, s1) = read_redtlb device a i s in
      let fits : (50 + i) % 256 ≡ 50 + i = omega (arith, h) in
      let e = new-IsEntry n in
      let m = word i (setup_pin device a i s) in
      let (fields, clear) =
        redtlb_round device a indexed i m (record (new n) { vector = (50 + i) % 256 }) s1 h
          (omega arith, e.1, e.2) refl in
      record {
        fields =
            fields
            ∙ ap
                (λ v. record (new n) {
                  vector = v;
                  pin_polarity = flag m 12;
                  trigger_mode = flag m 14;
                })
                fits;
        unmasked = clear;
      }

  setup_pin-other : (i j : ℕ) (s : State) → i ≢ j → word j (setup_pin device a i s) ≡ word j s
  unfolding setup_pin
  setup_pin-other i j s ne = word_at-same j s (setup_pin device a i s) (λ k low high.
      write-registers i _ k (read_redtlb device a i s).1 (elim (Bool-cases (ltb j i)) [
        | inl less ↦ inl (ground arith)
        | inr more ↦ inr (ground arith)
      ])
      ∙ read-registers i k s)

  setup_pins-other :
      (n i j : ℕ) (s : State)
      → (j < i) ⊎ (i + n ≤ j)
      → word j (setup_pins device n i a s) ≡ word j s
  unfolding setup_pins
  setup_pins-other zero i j s h = refl
  setup_pins-other (suc n) i j s h =
      setup_pins-other n (i + 1) j (setup_pin device a i s) (ground arith)
      ∙ setup_pin-other i j s (λ e. ground arith)

  setup_pins-own :
      (n i j : ℕ) (s : State)
      → i ≤ j
      → j < i + n
      → i + n ≤ 24
      → Routed j (entry j s) (word j (setup_pins device n i a s))
  unfolding setup_pins
  setup_pins-own zero i j s low high h = absurd (omega (arith, low, high))
  setup_pins-own (suc n) i j s low high h = elim (Bool-cases (j == i)) [
    | inl e ↦
        let same : j ≡ i = ==→≡ j i e in
        rw same (
          subst (Routed i (entry i s))
            (sym (setup_pins-other n (i + 1) i (setup_pin device a i s) (inl (omega arith))))
            (setup_pin-own i s (omega (arith, h))))
    | inr e ↦
        let ne = ==→≢ j i e in
        subst
          (λ w. Routed j (new w) (word j (setup_pins device n (i + 1) a (setup_pin device a i s))))
          (setup_pin-other i j s (λ q. ne (sym q)))
          (setup_pins-own n (i + 1) j (setup_pin device a i s) (ground arith) (omega (arith, high))
            (omega (arith, h)))
  ]

  -- Behind the loop over the 24 pins of an I/O APIC, each pin has its old entry with the vector of
  -- the handler that the interrupt table has for this pin, but that the pin polarity and the trigger
  -- mode are the device's own bits 12 and 14; and it is not masked, whatever its mask was before.
  pub setup_pins-Routed :
      (s : State) (k : ℕ)
      → k < 24
      → Routed k (entry k s) (word k (setup_pins device 24 0 a s))
        × (idt (entry k (setup_pins device 24 0 a s)).vector ≡ some (Handler.ioapic k))
  setup_pins-Routed s k h =
      let set = setup_pins-own 24 0 k s (omega arith) (omega (arith, h)) (omega arith) in
      (set, ap (λ (r : RedTbl). idt r.vector) set.fields ∙ idt-pins k h)
