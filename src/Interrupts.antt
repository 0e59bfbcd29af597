-- ===== src/Interrupts.antt =====
-- kernel/src/interrupts.rs: the interrupt descriptor table as a map from vectors to handlers, and what
-- the handlers do. The handlers of the I/O APIC's pins are one constructor with the pin's number.
pub mod Vectors
pub mod Acknowledge
pub mod Sleep
mod Tests
use lemoncake.Base.{
  ℕ, zero, suc, ◌+◌, ◌==◌, if◌then◌else◌, Option, none, some, Run, done, panic, ◌>>=◌, add_w,
  unwrap,
}
use lemoncake.Apic.Access.{Cpu}
use lemoncake.Apic.Local.{LocalApic, eoi}
use lemoncake.Keyboard.Shared.{Crates}
use lemoncake.Keyboard.{Keys, add_scancode}
use lemoncake.Rtl8139.Machine.{Card}
use lemoncake.Rtl8139.{Rtl, handle_interrupt}

pub data Handler : Type 0 where
  breakpoint : Handler
  page_fault : Handler
  double_fault : Handler
  gp_fault : Handler
  generic : Handler
  timer : Handler
  timer2 : Handler
  ioapic : ℕ → Handler
  int80 : Handler

abbrev pub Table : Type 0
Table = ℕ → Option Handler

abbrev pub set_handler : ℕ → Handler → Table → Table
set_handler vector handler idt v = if v == vector then some handler else idt v

-- `for i in 32..=255`
unfoldable pub fill_generic : ℕ → ℕ → Table → Table
fill_generic zero i idt = idt
fill_generic (suc n) i idt = fill_generic n (i + 1) (set_handler i Handler.generic idt)

-- `idt[50]` to `idt[73]`
unfoldable pub fill_pins : ℕ → ℕ → Table → Table
fill_pins zero pin idt = idt
fill_pins (suc n) pin idt = fill_pins n (pin + 1) (set_handler (50 + pin) (Handler.ioapic pin) idt)

abbrev pub exceptions : Table
exceptions = set_handler 8 Handler.double_fault (
    set_handler 13 Handler.gp_fault
      (set_handler 14 Handler.page_fault (set_handler 3 Handler.breakpoint (λ v. none))))

-- `IDT`
unfoldable pub idt : Table
idt = set_handler 0x80 Handler.int80 (
    fill_pins 24 0 (
      set_handler 49 Handler.timer2
        (set_handler 48 Handler.timer (fill_generic 224 32 exceptions))))

-- What the handlers of the exceptions need: their reports on the log, and the sad face.
pub record Reports (cpu : Cpu) : Type 0 where
  pub report : Handler → cpu.device.State → cpu.device.State
  pub sad : cpu.device.State → cpu.device.State

-- What the network card needs of the machine beside its state.
pub record Network (cpu : Cpu) : Type 0 where
  pub rx_buf : ℕ
  pub offset : ℕ
  pub port_in : ℕ → ℕ → cpu.device.State → ℕ × cpu.device.State
  pub port_out : ℕ → ℕ → ℕ → cpu.device.State → cpu.device.State
  pub read_header : ℕ → cpu.device.State → ℕ × cpu.device.State

abbrev pub card : (cpu : Cpu) → Network cpu → Card
card cpu network = record {
  State = cpu.device.State;
  rx_buf = network.rx_buf;
  offset = network.offset;
  port_in = network.port_in;
  port_out = network.port_out;
  read_header = network.read_header;
}

-- `TICK_COUNT`, the keyboard's statics, the statics `LAPIC` and `RTL8139`, and the machine.
pub record World (cpu : Cpu) (crates : Crates) : Type 0 where
  pub ticks : ℕ
  pub keys : Keys crates
  pub lapic : Option LocalApic
  pub rtl8139 : Option Rtl
  pub machine : cpu.device.State

-- How a handler ends: it returns, it stops in a loop, the call enters the assembly of syscall.rs, or
-- the fuel for the packets of the network card is used up.
pub data Ended (cpu : Cpu) (crates : Crates) : Type 0 where
  resumed : World cpu crates → Ended cpu crates
  stopped : World cpu crates → Ended cpu crates
  system_call : World cpu crates → Ended cpu crates
  receiving : Ended cpu crates

module _ (cpu : Cpu) (crates : Crates) (reports : Reports cpu) (network : Network cpu)
    (fuel : ℕ) where
  open cpu use {port_in}
  open reports use {report, sad}

  -- `LAPIC.get().expect(…).eoi()`
  unfoldable pub acknowledge : World cpu crates → Run (Ended cpu crates)
  acknowledge w =
      unwrap w.lapic >>= λ a. done (Ended.resumed (record w { machine = eoi cpu a w.machine }))

  unfoldable pub timer_interrupt_handler : World cpu crates → Run (Ended cpu crates)
  unfolding acknowledge
  timer_interrupt_handler w =
      add_w 64 w.ticks 1 >>= λ ticks. acknowledge (record w { ticks = ticks })

  -- Port 0x60 holds the scancode.
  unfoldable pub keyboard_handler : World cpu crates → Run (Ended cpu crates)
  unfolding acknowledge
  keyboard_handler w =
      let (sc, machine) = port_in 0x60 w.machine in
      add_scancode crates sc w.keys >>= λ keys.
      acknowledge (record w { keys = keys; machine = machine })

  -- The card and the machine behind `handle_interrupt`, with the lock of `RTL8139` free.
  abbrev pub serviced : World cpu crates → Option (Rtl × cpu.device.State) → Run (Ended cpu crates)
  serviced w none = done Ended.receiving
  serviced w (some (d, s)) = acknowledge (record w { rtl8139 = some d; machine = s })

  -- `ioapic_handler_10`
  unfoldable pub network_handler : World cpu crates → Run (Ended cpu crates)
  unfolding acknowledge handle_interrupt
  network_handler w = elim w.rtl8139 [
    | none ↦ acknowledge w
    | some d ↦ handle_interrupt (card cpu network) fuel d w.machine >>= serviced w
  ]

  unfoldable pub ioapic_handler : ℕ → World cpu crates → Run (Ended cpu crates)
  unfolding acknowledge keyboard_handler network_handler
  ioapic_handler pin w =
      if pin == 1
      then keyboard_handler w
      else if pin == 10
      then network_handler w
      else acknowledge w

  -- The report, the sad face and a loop without an end.
  unfoldable pub fault_handler : Handler → World cpu crates → Run (Ended cpu crates)
  fault_handler h w = done (Ended.stopped (record w { machine = sad (report h w.machine) }))

  unfoldable pub handle : Handler → World cpu crates → Run (Ended cpu crates)
  unfolding acknowledge timer_interrupt_handler ioapic_handler fault_handler
  handle Handler.breakpoint w =
      done (Ended.resumed (record w { machine = report Handler.breakpoint w.machine }))
  handle Handler.page_fault w = fault_handler Handler.page_fault w
  handle Handler.double_fault w = fault_handler Handler.double_fault w
  handle Handler.gp_fault w = fault_handler Handler.gp_fault w
  handle Handler.generic w = acknowledge w
  handle Handler.timer w = timer_interrupt_handler w
  handle Handler.timer2 w = acknowledge w
  handle (Handler.ioapic pin) w = ioapic_handler pin w
  handle Handler.int80 w = done (Ended.system_call w)
