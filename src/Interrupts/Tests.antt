-- ===== src/Interrupts/Tests.antt =====
-- A key on a machine that records the stores to the local APIC, for kernel/src/interrupts.rs.
use lemoncake.Base.{ℕ, ◌≡◌, refl, arith, Bool, true, false, List, [], ◌∷◌, ◌++◌, none, some, done}
use lemoncake.Apic.Access.{Device, Cpu}
use lemoncake.Apic.Local.{LocalApic}
use lemoncake.Keyboard.Shared.{Crates}
use lemoncake.Rtl8139.{Rtl, handle_interrupt}
use lemoncake.Interrupts.{Handler, Reports, Network, World, Ended, idt, handle}
use lemoncake.Interrupts.Acknowledge.{Effect, Serviced, handle-Effect}

abbrev recorder : Device
recorder = record {
  State = List (ℕ × ℕ);
  volatile_load = λ address s. (0, s);
  volatile_store = λ address value s. (address, value) ∷ s;
}

abbrev machine : Cpu
machine = record {
  device = recorder;
  offset = 0;
  read_msr = λ r s. (0, s);
  write_msr = λ r v s. s;
  port_in = λ port s. (30, s);
  port_out = λ port value s. s;
}

abbrev lists : Crates
lists = record {
  Queue = List ℕ;
  Waker = Bool;
  new_queue = λ n. [];
  push = λ c q. (true, q ++ c ∷ []);
  pop = λ q. (none, q);
  no_waker = false;
  register = λ w. true;
  wake = λ w. false;
  take = λ w. false;
}

abbrev silent : Reports machine
silent = record { report = λ h s. s; sad = λ s. s }

abbrev local_apic : LocalApic
local_apic = record { virt_address = 0xfee00000 }

-- A network card without a packet, whose interrupt is acknowledged by a store to its port.
abbrev wires : Network machine
wires = record {
  rx_buf = 0;
  offset = 0;
  port_in = λ size port s. (4, s);
  port_out = λ size port value s. (port, value) ∷ s;
  read_header = λ address s. (0, s);
}

abbrev nic : Rtl
nic = record {
  mac = [];
  mar = [];
  tsd = [];
  tsad = [];
  rbstart = 0;
  cmd = 0;
  imr = 5;
  isr = 0;
  tx_current = 0;
  rx_offset = 0;
  ioaddr = 0xc000;
  irq = 10;
}

abbrev running : World machine lists
running = record {
  ticks = 7;
  keys = record { queue = some []; waker = true };
  lapic = some local_apic;
  rtl8139 = some nic;
  machine = [];
}

abbrev told : List (ℕ × ℕ)
told = (0xc03e, 4) ∷ []

nic-Serviced : Serviced machine lists silent wires 3 running (some nic) told
unfolding handle_interrupt
nic-Serviced = Serviced.present nic nic refl refl refl

handle-Effect_example :
    (h : Handler) × (idt 60 ≡ some h)
    × (handle machine lists silent wires 3 h running
        ≡ done (
            Ended.resumed
              (Effect machine lists silent wires 3 60 local_apic [] (some nic) told running)))
handle-Effect_example =
    handle-Effect machine lists silent wires 3 local_apic [] (some nic) told running refl 60
      (omega arith) (omega arith) (λ e. omega (arith, e)) refl (omega arith) (λ e. nic-Serviced)
