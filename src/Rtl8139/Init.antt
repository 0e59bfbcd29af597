-- ===== src/Rtl8139/Init.antt =====
-- `Rtl8139::init` of kernel/src/drivers/rtl8139.rs over the configuration space, the page tables and
-- the ports of one machine. Nothing is answered when the fuel of the reset is used up; a failure is
-- no driver.
use lemoncake.Base.{
  ℕ, ◌/◌, ◌%◌, ◌^◌, bit_and, Bool, true, false, if◌then◌else◌, Option, none, some, Run, done, panic,
  ◌>>=◌, add_w, not_w, ltb, ◌≡◌, refl, arith, Bool-cases, inl, inr,
}
use lemoncake.Pages.{page_of, page_size}
use lemoncake.Pci.{PciDevice, enable_bus_master, bar_address, read_bar, read_part}
use lemoncake.Pci.Registers.{Register}
use lemoncake.Pci.Master.{enabled, enable_bus_master-settles}
use lemoncake.Rtl8139.{Rtl, setup}
use lemoncake.Rtl8139.Machine.{Host, card, configuration}

-- `PhysAddr::new`, which panics above 52 bits, and the frame of the address
abbrev pub frame_at : ℕ → Run ℕ
frame_at addr = if ltb addr (2 ^ 52) then done (addr / page_size) else panic

module _ (host : Host) (fuel ecam : ℕ) (d : PciDevice) where
  open host use {State, offset, map_uncached}

  abbrev pub Outcome : Type 0
  Outcome = Option (Option Rtl × State)

  abbrev pub refused : State → Run Outcome
  refused s = done (some (none, s))

  abbrev pub driver : Option (Rtl × State) → Outcome
  driver none = none
  driver (some (rtl, s)) = some (some rtl, s)

  -- `let ioaddr` and what follows.
  abbrev pub on_ports : Option (ℕ × Bool × Bool) × State → Run Outcome
  on_ports (none, s) = refused s
  on_ports (some (low, _, _), s) =
      setup (card host) fuel (bit_and (low % 2 ^ 16) (not_w 16 3))
        (read_part (configuration host) 8 ecam d 0x3C) s
      >>= λ r. done (driver r)

  abbrev pub on_mapped : Bool × State → Run Outcome
  on_mapped (false, s) = refused s
  on_mapped (true, s) = on_ports (read_bar (configuration host) ecam d 0 s)

  -- With the frame, on the second read of the address.
  abbrev pub with_page : ℕ → Option ℕ × State → Run Outcome
  with_page frame (none, s) = refused s
  with_page frame (some addr, s) = do
    virt ← add_w 64 addr offset
    page ← page_of virt
    on_mapped (map_uncached page frame s)

  abbrev pub with_frame : Option ℕ × State → Run Outcome
  with_frame (none, s) = refused s
  with_frame (some addr, s) =
      frame_at addr >>= λ frame. with_page frame (bar_address (configuration host) ecam d 0 s)

  abbrev pub on_master : Bool × State → Run Outcome
  on_master (false, s) = refused s
  on_master (true, s) = with_frame (bar_address (configuration host) ecam d 0 s)

  unfoldable pub init : State → Run Outcome
  init s = on_master (enable_bus_master (configuration host) ecam d s)

  on_master-false : (r : Bool × State) → r.0 ≡ false → on_master r ≡ refused r.1
  on_master-false (false, s) e = refl
  on_master-false (true, s) e = cc

  -- A card whose command register does not keep bit 2 is refused, behind the write of that register.
  init-refused :
      (settle : ℕ → ℕ → ℕ) (command : Register (configuration host) ecam d 4 settle) (s : State)
      → settle (command.word s) (enabled (command.word s)) / 4 % 2 ≡ 0
      → init s ≡ refused (enable_bus_master (configuration host) ecam d s).1
  unfolding init
  init-refused settle command s off =
      let (after, answer) =
        enable_bus_master-settles (configuration host) ecam d settle command s in
      on_master-false (enable_bus_master (configuration host) ecam d s)
        (elim (Bool-cases (enable_bus_master (configuration host) ecam d s).0) [
          | inl on ↦ absurd (omega (arith, answer.0 on, after, off))
          | inr off_there ↦ off_there
        ])
