-- ===== src/Start/Tests.antt =====
-- The start on small machines, for kernel/src/main.rs.
use lemoncake.Base.{
  ◌/◌, true, ℕ, ◌+◌, ◌<◌, ◌≤◌, ◌≡◌, refl, arith, false, ≢→==, ◌==◌, List, [], ◌∷◌, ◌++◌, replicate,
  Option, none, some, Run, panic, done, codes, is_utf8, position, bytes_eq,
}
use lemoncake.Apic.Samples.{Registers, chip, io_apic, chip-Indexed}
use lemoncake.Interrupts.{Handler, idt}
use lemoncake.Start.{setup_pins, init_ramdisk, start_program, user}
use lemoncake.Start.Pins.{word, entry, Routed, setup_pins-Routed}
use lemoncake.Start.Ramdisk.{init_ramdisk-Mapped}
use lemoncake.Start.Panic.{panic_handler, report, frown, panic_handler-Reports}
use lemoncake.Log.{Level, Location, Output, pieces_of}
use lemoncake.Log.Arrive.{joined, Fit}
use lemoncake.Log.Samples.{
  wire, wire-Sends, screen, screen-Draws, screen-Faces, start, place, start-Fit,
}
use lemoncake.Start.Program.{start_program-Jumps}
use lemoncake.Pages.Samples.{Counter, counter_space, counter_tables}
use lemoncake.Pages.Alloc.{Mapped}
use lemoncake.Elf.Image.{Elf, Machine}
use lemoncake.Elf.Samples.{Bytes, machine_for, memory_for}
use lemoncake.Pages.{user_base, alloc}
use lemoncake.Elf.{Process, ProcInitError, new, init, required_size, load_segments}
use lemoncake.Ustar.{File, next, oct2bin, oct2bin_from, name_of, blocks_needed, magic}
use lemoncake.Ustar.Agree.{Listed}

abbrev masked : Registers
masked = (0, λ i. 0x10000)

setup_pins-Routed_example :
    Routed chip io_apic chip-Indexed 1
      (entry chip io_apic chip-Indexed 1 masked)
      (word chip io_apic chip-Indexed 1 (setup_pins chip 24 0 io_apic masked))
    × (idt (entry chip io_apic chip-Indexed 1 (setup_pins chip 24 0 io_apic masked)).vector
        ≡ some (Handler.ioapic 1))
setup_pins-Routed_example = setup_pins-Routed chip io_apic chip-Indexed masked 1 (omega arith)

-- A machine whose memory is the last write.
abbrev sample : Machine
sample = record {
  space = counter_space (List ℕ);
  parse = λ bytes. some (record { program_headers = []; entry = 1 });
  write = λ address bytes (n, t, m). (n, t, bytes);
}

init_ramdisk-Mapped_example :
    (s' : Counter (List ℕ)) × (init_ramdisk sample 1 (7 ∷ []) (2000, (λ p. none), [])
      ≡ done (s'.0, s'.1, 7 ∷ []))
    × Mapped
        (counter_space (List ℕ))
        (counter_tables (List ℕ))
        0x500000000
        257
        (2000, (λ p. none), [])
        (s'.0, s'.1, 7 ∷ [])
    × ((i : ℕ) → i < 1 → (frame : ℕ) × (s'.1 ((0x500000000000 + i) / 4096) ≡ some frame))
init_ramdisk-Mapped_example =
    init_ramdisk-Mapped sample (counter_tables (List ℕ)) (λ address p bytes s. refl) 1 (7 ∷ [])
      (2000, (λ p. none), []) (omega arith) (omega arith) (λ j h. refl) (omega arith)

-- An executable of one segment with four bytes.
abbrev one_segment : Elf
one_segment = record {
  program_headers =
      record { p_type = 1; p_offset = 0; p_vaddr = 0; p_filesz = 4; p_memsz = 4 } ∷ [];
  entry = 2;
}

abbrev content : List ℕ
content = 11 ∷ 12 ∷ 13 ∷ 14 ∷ []

-- An archive with this executable under the name `init`.
abbrev archive : List ℕ
archive =
    (codes "init" ++ replicate 120 0)
    ++ replicate 10 b'0'
    ++ (b'4' ∷ replicate 122 0)
    ++ magic
    ++ replicate 250 0
    ++ (content ++ replicate 508 0)

abbrev init_file : File
init_file = record { filename = codes "init"; content = content; size = 4 }

init_file-next : next archive 0 ≡ done (some init_file, 1024)
unfolding next oct2bin oct2bin_from name_of blocks_needed bytes_eq position is_utf8
init_file-next = refl

abbrev booted : Counter Bytes
booted = (100, (λ p. none), λ p. 0)

abbrev state_of : Run (Option ProcInitError × Process × ℕ × Counter Bytes) → Counter Bytes
state_of (done (e, p, next, s)) = s
state_of panic = booted

abbrev loaded : Counter Bytes
loaded = state_of (init (machine_for one_segment) (new content) (user_base, booted))

abbrev started : Process
started = record {
  pid = none;
  stack_addr = none;
  data_bytes = content;
  entrypoint = some (user_base + 2);
}

init-loaded :
    init (machine_for one_segment) (new content) (user_base, booted)
    ≡ done (none, started, user_base + 8192, loaded)
unfolding init new alloc required_size load_segments
init-loaded = refl

loaded-left : 40 ≤ loaded.0
unfolding init new alloc required_size load_segments
loaded-left = omega arith

loaded-fresh : (k : ℕ) → k < 10 → loaded.1 (0xffffffff90002 + k) ≡ none
unfolding init new alloc required_size load_segments
loaded-fresh k h =
    let first : (0xffffffff90002 + k == 0xffffffff90000) ≡ false =
      ≢→== _ _ (λ e. omega (arith, e)) in
    let second : (0xffffffff90002 + k == 0xffffffff90001) ≡ false =
      ≢→== _ _ (λ e. omega (arith, e)) in
    rw (first, second) refl

start_program-Jumps_example :
    (s' : Counter Bytes) × (start_program (machine_for one_segment) archive (user_base, booted)
      ≡ some (
          done (
            user
              (user_base + 2)
              (user_base + 8192)
              (record started { stack_addr = some (user_base + 8192) })
              (user_base + 49152)
              s')))
    × Mapped (counter_space Bytes) (counter_tables Bytes) 0xffffffff90002 10 loaded s'
    × (s'.1 0xffffffff90001 ≡ loaded.1 0xffffffff90001)
start_program-Jumps_example =
    start_program-Jumps (machine_for one_segment) (counter_tables Bytes) (memory_for one_segment)
      (λ address p bytes s. refl) archive init_file started (user_base + 2) (user_base + 8192)
      (user_base, booted) loaded (omega arith) (Listed.here 0 1024 init_file-next refl) init-loaded
      refl refl (record { high = omega arith; whole = refl; fits = omega arith }) loaded-left
      loaded-fresh

abbrev place_of_panic : Location
place_of_panic = record { file = codes "src/elf.rs"; line = codes "151"; column = codes "9" }

panic_handler-Reports_example :
    (o' : Output screen wire) × (panic_handler screen wire true true
        (record { message = codes "gone" ∷ []; location = some place_of_panic })
        place
        start
      ≡ some (done o'))
    × (o'.line
        ≡ joined (pieces_of true Level.error (report (codes "gone" ∷ []) place_of_panic) place)
          ++ frown)
    × Fit screen screen-Draws wire wire-Sends o'
panic_handler-Reports_example =
    panic_handler-Reports screen screen-Draws screen-Faces wire wire-Sends true true
      (codes "gone" ∷ []) place_of_panic place start start-Fit
