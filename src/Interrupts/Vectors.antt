-- ===== src/Interrupts/Vectors.antt =====
-- Which handler a vector has, for kernel/src/interrupts.rs.
use lemoncake.Base.{
  ℕ, zero, suc, ◌+◌, ◌≤◌, ◌<◌, ◌≡◌, ◌≢◌, ◌⊎◌, inl, inr, refl, ◌∙◌, arith, false, ◌==◌, ==_refl,
  ≢→==, some, Bool-cases, ==→≡, ==→≢,
}
use lemoncake.Interrupts.{Handler, Table, set_handler, fill_generic, fill_pins, exceptions, idt}

fill_generic-outside : (n i v : ℕ) (t : Table) → (v < i) ⊎ (i + n ≤ v) → fill_generic n i t v ≡ t v
unfolding fill_generic
fill_generic-outside zero i v t h = refl
fill_generic-outside (suc n) i v t h =
    let other : (v == i) ≡ false = ≢→== v i (λ e. ground arith) in
    fill_generic-outside n (i + 1) v (set_handler i Handler.generic t) (ground arith)
    ∙ rw other refl

fill_generic-inside :
    (n i v : ℕ) (t : Table) → i ≤ v → v < i + n → fill_generic n i t v ≡ some Handler.generic
unfolding fill_generic
fill_generic-inside zero i v t low high = absurd (omega (arith, low, high))
fill_generic-inside (suc n) i v t low high = elim (Bool-cases (v == i)) [
  | inl e ↦
      let same = ==→≡ v i e in
      fill_generic-outside n (i + 1) v (set_handler i Handler.generic t) (inl (omega (arith, same)))
      ∙ rw e refl
  | inr e ↦
      let ne = ==→≢ v i e in
      fill_generic-inside n (i + 1) v (set_handler i Handler.generic t) (ground arith)
        (omega (arith, high))
]

fill_pins-outside :
    (n pin v : ℕ) (t : Table) → (v < 50 + pin) ⊎ (50 + pin + n ≤ v) → fill_pins n pin t v ≡ t v
unfolding fill_pins
fill_pins-outside zero pin v t h = refl
fill_pins-outside (suc n) pin v t h =
    let other : (v == 50 + pin) ≡ false = ≢→== v (50 + pin) (λ e. ground arith) in
    fill_pins-outside n (pin + 1) v (set_handler (50 + pin) (Handler.ioapic pin) t) (ground arith)
    ∙ rw other refl

fill_pins-inside :
    (n pin k : ℕ) (t : Table)
    → pin ≤ k
    → k < pin + n
    → fill_pins n pin t (50 + k) ≡ some (Handler.ioapic k)
unfolding fill_pins
fill_pins-inside zero pin k t low high = absurd (omega (arith, low, high))
fill_pins-inside (suc n) pin k t low high = elim (Bool-cases (k == pin)) [
  | inl e ↦
      let same : k ≡ pin = ==→≡ k pin e in
      rw same (
        fill_pins-outside n (pin + 1) (50 + pin) (set_handler (50 + pin) (Handler.ioapic pin) t)
          (inl (omega arith))
        ∙ rw (==_refl (50 + pin)) refl)
  | inr e ↦
      let ne = ==→≢ k pin e in
      fill_pins-inside n (pin + 1) k (set_handler (50 + pin) (Handler.ioapic pin) t) (ground arith)
        (omega (arith, high))
]

-- The vector 50 + k, for a pin k of the I/O APIC, has the pin's handler.
pub idt-pins : (k : ℕ) → k < 24 → idt (50 + k) ≡ some (Handler.ioapic k)
unfolding idt
idt-pins k h =
    let other : (50 + k == 0x80) ≡ false = ≢→== (50 + k) 0x80 (λ e. omega (arith, h, e)) in
    rw other (fill_pins-inside 24 0 k _ (omega arith) (omega (arith, h)))

abbrev pub Elsewhere : ℕ → Type 0
Elsewhere v = ((32 ≤ v) × (v < 48)) ⊎ ((74 ≤ v) × (v < 256))

pub idt-generic : (v : ℕ) → Elsewhere v → v ≢ 0x80 → idt v ≡ some Handler.generic
unfolding idt
idt-generic v h ne =
    let call : (v == 0x80) ≡ false = ≢→== v 0x80 ne in
    let t2 : (v == 49) ≡ false = ≢→== v 49 (λ e. ground arith) in
    let t1 : (v == 48) ≡ false = ≢→== v 48 (λ e. ground arith) in
    rw call (
      fill_pins-outside 24 0 v _ (ground arith)
      ∙ rw (t2, t1) (fill_generic-inside 224 32 v exceptions (ground arith) (ground arith)))

pub idt-timer : idt 48 ≡ some Handler.timer
unfolding idt fill_pins
idt-timer = refl

pub idt-timer2 : idt 49 ≡ some Handler.timer2
unfolding idt fill_pins
idt-timer2 = refl
