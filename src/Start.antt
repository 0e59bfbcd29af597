-- ===== src/Start.antt =====
-- kernel/src/main.rs: the parts of `kernel_main` that set up the interrupt controllers, choose the
-- network devices, load the archive and start the first program.
pub mod Pins
pub mod Ramdisk
pub mod Program
pub mod Panic
mod Tests
use lemoncake.Base.{
  ℕ, zero, suc, ◌+◌, ◌-◌, ◌*◌, ◌/◌, ◌%◌, ◌^◌, ltb, ◌==◌, ◌&&◌, if◌then◌else◌, List, [], ◌∷◌, length,
  codes,
}
use lemoncake.Base.{
  Option, none, some, ◌⊎◌, inl, inr, Run, done, panic, ◌>>=◌, ◌>>◌, add_w, unwrap, assert, leb,
}
use lemoncake.Apic.Access.{Device, Cpu}
use lemoncake.Apic.{RedTbl, new, store, IoApic, read_redtlb, write_redtlb}
use lemoncake.Apic.Local.{LocalApic, set_div_conf, set_lvt_timer, set_init_count}
use lemoncake.Pages.AddressSpace.{Space}
use lemoncake.Pages.{page_of, canonical, kernel_flags}
use lemoncake.Pci.{PciDevice}
use lemoncake.Ustar.{File, read_file}
use lemoncake.Elf.Image.{Machine}
use lemoncake.Elf.{Process, Switched, returned, jumped, switch}
use lemoncake.Elf

-- The divisor, the periodic mode with the vector 48, and the first count.
unfoldable pub start_timer : (cpu : Cpu) → LocalApic → ℕ → cpu.device.State → cpu.device.State
start_timer cpu lapic freq s =
    set_init_count cpu lapic freq
      (set_lvt_timer cpu lapic (2 ^ 17 + 48) (set_div_conf cpu lapic 0xB s))

-- What the ACPI tables say of an I/O APIC.
pub record IoApicInfo : Type 0 where
  pub id : ℕ
  pub address : ℕ
  pub global_system_interrupt_base : ℕ

-- `IoApic::init` behind the checks of its addresses: the static `IO_APIC_0` keeps its first value.
abbrev pub init_io_apic : ℕ → Option IoApic → IoApicInfo → IoApic
init_io_apic offset (some a) info = a
init_io_apic offset none info = record {
  virt_address = info.address + offset;
  global_system_int = info.global_system_interrupt_base;
  id = info.id;
}

module _ (device : Device) where
  open device use {State}

  -- One round of the loop over the pins.
  unfoldable pub setup_pin : IoApic → ℕ → State → State
  setup_pin ioa i s =
      let (n, s1) = read_redtlb device ioa i s in
      write_redtlb device ioa i (store (record (new n) { vector = (50 + i) % 2 ^ 8 })) s1

  unfoldable pub setup_pins : ℕ → ℕ → IoApic → State → State
  setup_pins zero i ioa s = s
  setup_pins (suc n) i ioa s = setup_pins n (i + 1) ioa (setup_pin ioa i s)

  -- The loop over the I/O APICs, with the static.
  unfoldable pub setup_io_apics :
      ℕ → Option IoApic → List IoApicInfo → State → Option IoApic × State
  setup_io_apics offset first [] s = (first, s)
  setup_io_apics offset first (info ∷ rest) s =
      let ioa = init_io_apic offset first info in
      setup_io_apics offset (some ioa) rest (setup_pins 24 0 ioa s)

-- `PCI_VENDOR_ID` and `PCI_DEVICE_ID` of kernel/src/drivers/rtl8139.rs
unfoldable pub network_devices : List PciDevice → List PciDevice
network_devices [] = []
network_devices (dev ∷ devs) =
    let rest = network_devices devs in
    if dev.vendor_id == 0x10EC && (dev.device_id == 0x8139) then dev ∷ rest else rest

-- The name of the first program.
abbrev pub file_name : List ℕ
file_name = codes "init"

-- `start` of `init_ramdisk`
abbrev pub ramdisk_start : ℕ
ramdisk_start = 0x500000000000

module _ (machine : Machine) where
  open machine use {space, write}
  open space use {State, MapError, allocate_frame, map_to}

  -- One page of `init_ramdisk`, behind the call of the frame allocator.
  abbrev pub expect_mapped : (MapError ⊎ Unit {0}) × State → Run State
  expect_mapped (inl e, s) = panic
  expect_mapped (inr _, s) = done s

  abbrev pub ramdisk_page : ℕ → Option ℕ × State → Run State
  ramdisk_page page (none, s) = panic
  ramdisk_page page (some frame, s) = expect_mapped (map_to page frame kernel_flags s)

  -- `for page in Page::range_inclusive(start_page, end_page)`
  unfoldable pub ramdisk_pages : ℕ → ℕ → State → Run State
  ramdisk_pages zero page s = done s
  ramdisk_pages (suc n) page s = ramdisk_page page (allocate_frame s) >>= ramdisk_pages n (page + 1)

  -- The state with the bytes at the start of the pages; the archive is those bytes. A copy of more
  -- bytes than the pages hold faults behind them, and the handler of a page fault does not come back:
  -- this counts as a panic.
  unfoldable pub init_ramdisk : ℕ → List ℕ → State → Run State
  init_ramdisk mib ramdisk_data s = do
    end ← add_w 64 ramdisk_start (mib * 1024 * 1024)
    end_page ← page_of end
    s' ← ramdisk_pages (end_page - ramdisk_start / 4096 + 1) (ramdisk_start / 4096) s
    assert (leb (length ramdisk_data) ((end_page - ramdisk_start / 4096 + 1) * 4096))
    done (write ramdisk_start ramdisk_data s')

  -- How the start ends: in the executor with the command line, or in the first program.
  pub data Started : Type 0 where
    shell : Started
    user : ℕ → ℕ → Process → ℕ → State → Started

  -- `panic!` where `switch` returns.
  abbrev pub expect_jump : Switched machine × Process × ℕ × State → Run Started
  expect_jump (returned e, p, next, s) = panic
  expect_jump (jumped entry stack, p, next, s) = done (user entry stack p next s)

  abbrev pub start_with : ℕ × State → Option File → Run Started
  start_with m none = done shell
  start_with m (some i) = switch machine 10 (Elf.new i.content) m >>= expect_jump

  -- The end of `kernel_main` with the archive; nothing when the fuel of the search is used up.
  unfoldable pub start_program : List ℕ → ℕ × State → Option (Run Started)
  start_program archive m = elim (read_file archive file_name) [
    | none ↦ none
    | some found ↦ some (found >>= start_with m)
  ]
