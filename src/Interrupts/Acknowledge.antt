-- ===== src/Interrupts/Acknowledge.antt =====
-- What an interrupt leaves behind, for kernel/src/interrupts.rs.
use lemoncake.Base.{
  ℕ, ◌+◌, ◌≤◌, ◌<◌, ◌≡◌, ◌≢◌, inl, inr, refl, sym, ap, ◌∙◌, Option, arith, Bool-cases, ◌==◌,
  if◌then◌else◌, ltb, lt→ltb, ==→≡, ==→≢, ≢→==,
}
use mathlib.Core.Path.{subst}
use lemoncake.Base.{◌-◌, ◌^◌, leb, ◌||◌, none, panic, some, done}
use lemoncake.Apic.Access.{Cpu}
use lemoncake.Apic.Local.{LocalApic, eoi}
use lemoncake.Keyboard.Shared.{Crates}
use lemoncake.Keyboard.{pushed, add_scancode}
use lemoncake.Rtl8139.{Rtl, handle_interrupt}
use lemoncake.Interrupts.{
  Handler, Reports, Network, card, network_handler, World, Ended, idt, acknowledge,
  timer_interrupt_handler, keyboard_handler, ioapic_handler, handle,
}
use lemoncake.Interrupts.Vectors.{idt-pins, idt-generic, idt-timer, idt-timer2}

module _ (cpu : Cpu) (crates : Crates) (reports : Reports cpu) (network : Network cpu)
    (fuel : ℕ) where
  open cpu use {port_in}

  -- What `handle_interrupt` makes of the network card, if there is one, and of the machine.
  pub data Serviced (w : World cpu crates) (rtl : Option Rtl) (s : cpu.device.State) : Type 0 where
    absent : w.rtl8139 ≡ none → rtl ≡ none → s ≡ w.machine → Serviced w rtl s
    present :
        (d d' : Rtl)
        → w.rtl8139 ≡ some d
        → handle_interrupt (card cpu network) fuel d w.machine ≡ done (some (d', s))
        → rtl ≡ some d'
        → Serviced w rtl s

  -- What the handler of a vector does: it counts a tick, takes a scancode, has the network card
  -- serviced, or none of these; then the end of the interrupt is signalled once, to the local APIC
  -- `a`.
  abbrev pub Effect :
      ℕ
      → LocalApic
      → crates.Queue
      → Option Rtl
      → cpu.device.State
      → World cpu crates
      → World cpu crates
  Effect v a q rtl s w =
      if v == 48
      then record w { ticks = w.ticks + 1; machine = eoi cpu a w.machine }
      else if v == 51
      then record w {
        keys = pushed crates w.keys (crates.push (port_in 0x60 w.machine).0 q);
        machine = eoi cpu a (port_in 0x60 w.machine).1;
      }
      else if v == 60
      then record w { rtl8139 = rtl; machine = eoi cpu a s }
      else record w { machine = eoi cpu a w.machine }

  module _ (a : LocalApic) (q : crates.Queue) (rtl : Option Rtl) (s : cpu.device.State)
      (w : World cpu crates) (there : w.lapic ≡ some a) where
    acknowledge_lem :
        acknowledge cpu crates reports network fuel w
        ≡ done (Ended.resumed (record w { machine = eoi cpu a w.machine }))
    unfolding acknowledge
    acknowledge_lem = rw there refl

    Handles : ℕ → Type 0
    Handles v =
        (h : Handler) × (idt v ≡ some h)
        × (handle cpu crates reports network fuel h w ≡ done (Ended.resumed (Effect v a q rtl s w)))

    plain :
        (v : ℕ) (h : Handler)
        → idt v ≡ some h
        → v ≢ 48
        → v ≢ 51
        → v ≢ 60
        → handle cpu crates reports network fuel h w ≡ acknowledge cpu crates reports network fuel w
        → Handles v
    unfolding Handles
    plain v h at n48 n51 n60 run =
        (h, at, run ∙ acknowledge_lem ∙ rw (≢→== v 48 n48, ≢→== v 51 n51, ≢→== v 60 n60) refl)

    network-Handles : Serviced w rtl s → Handles 60
    unfolding Handles handle ioapic_handler network_handler acknowledge
    network-Handles (Serviced.absent e none_too same) =
        (Handler.ioapic 10, idt-pins 10 (omega arith), rw (e, none_too, same, there) refl)
    network-Handles (Serviced.present d d' e run now) =
        (Handler.ioapic 10, idt-pins 10 (omega arith), rw (e, run, now, there) refl)

    pin-Handles :
        (k : ℕ)
        → k < 24
        → w.keys.queue ≡ some q
        → (50 + k ≡ 60 → Serviced w rtl s)
        → Handles (50 + k)
    unfolding Handles handle ioapic_handler keyboard_handler add_scancode acknowledge
    pin-Handles k h queue net = elim (Bool-cases (k == 1)) [
      | inl e ↦
          let one : k ≡ 1 = ==→≡ k 1 e in
          rw one (Handler.ioapic 1, idt-pins 1 (omega arith), rw (queue, there) refl)
      | inr e ↦ elim (Bool-cases (k == 10)) [
        | inl e' ↦
            let ten : k ≡ 10 = ==→≡ k 10 e' in rw ten (network-Handles (net (ap (λ x. 50 + x) ten)))
        | inr e' ↦
            let ne = ==→≢ k 1 e in
            let ne' = ==→≢ k 10 e' in
            plain (50 + k) (Handler.ioapic k) (idt-pins k h) (λ q. omega (arith, q))
              (λ q. ground arith) (λ q. ground arith) (rw (handle, ioapic_handler, e, e') refl)
      ]
    ]

    timer-Handles : w.ticks + 1 < 2 ^ 64 → Handles 48
    unfolding Handles handle timer_interrupt_handler acknowledge
    timer-Handles small =
        (Handler.timer, idt-timer, rw (lt→ltb (w.ticks + 1) (2 ^ 64) small, there) refl)

    -- With the local APIC and the keyboard's queue initialised, the ticks below 2^64 - 1, and for
    -- the vector 60 no network card or one whose `handle_interrupt` comes to its end: every vector
    -- from 32 on, but that of the system calls, has a handler that does not panic and returns. It
    -- signals the end of the interrupt to the local APIC, and changes nothing else, except that the
    -- vector 48 counts a tick, the vector 51, of the pin 1, puts a scancode in the queue, and before
    -- the signal of the vector 60, of the pin 10, `handle_interrupt` runs on the network card.
    pub handle-Effect :
        (v : ℕ)
        → 32 ≤ v
        → v < 256
        → v ≢ 0x80
        → w.keys.queue ≡ some q
        → w.ticks + 1 < 2 ^ 64
        → (v ≡ 60 → Serviced w rtl s)
        → (h : Handler) × (idt v ≡ some h)
          × (handle cpu crates reports network fuel h w
              ≡ done (Ended.resumed (Effect v a q rtl s w)))
    unfolding Handles handle
    handle-Effect v low high call queue small net = elim (Bool-cases (v == 48)) [
      | inl e ↦ rw (==→≡ v 48 e) (timer-Handles small)
      | inr e ↦ elim (Bool-cases (v == 49)) [
        | inl e' ↦ rw (==→≡ v 49 e') (
            plain 49 Handler.timer2 idt-timer2 (λ p. omega (arith, p)) (λ p. omega (arith, p))
              (λ p. omega (arith, p)) refl)
        | inr e' ↦ elim (Bool-cases (ltb v 50 || leb 74 v)) [
          | inl out ↦
              let n48 = ==→≢ v 48 e in
              let n49 = ==→≢ v 49 e' in
              plain v Handler.generic (idt-generic v (ground arith) call) n48 (λ p. ground arith)
                (λ p. ground arith) refl
          | inr inside ↦
              let pin : 50 + (v - 50) ≡ v = ground arith in
              subst Handles pin (pin-Handles (v - 50) (ground arith) queue (λ e. net (sym pin ∙ e)))
        ]
      ]
    ]

  -- Before the queue is initialised, an interrupt of the keyboard panics.
  pub keyboard-uninit :
      (w : World cpu crates)
      → w.keys.queue ≡ none
      → handle cpu crates reports network fuel (Handler.ioapic 1) w ≡ panic
  unfolding handle ioapic_handler keyboard_handler add_scancode
  keyboard-uninit w e = rw e refl
