-- ===== src/Lib.antt =====
-- The kernel of lemoncake as functions, with the theorems that its parts rest on.
--
-- The kernel is one crate under kernel/src. Its heap is served by an allocator of kernel/src/allocator;
-- text goes from the system calls and the log to the terminal of display.rs, which draws glyphs of
-- font.rs into the frame buffer; devices are found through pci.rs, interrupts are routed by apic.rs
-- to the handlers of interrupts.rs, and files are read from the archive of drivers/ustar.rs. main.rs
-- starts these parts and then the program `init` of the archive, or the command line. drivers/mod.rs
-- leaves ide.rs and nvme.rs out of the build: Ide and Nvme are about code that nothing calls yet.
--
-- Files and code:
--   Base            what the others share: tests, lists, code that may panic, machine words, bits, text
--   Allocator       kernel/src/allocator: Layout is `align_up` of mod.rs with the parts of
--                   `core::alloc::Layout`, Bump is bump.rs, LinkedList is linked_list.rs, and
--                   FixedSizeBlock is fixed_size_block.rs over the heap of a crate (Fallback)
--   Ustar           kernel/src/drivers/ustar.rs
--   Display         `Framebuffer` of kernel/src/display.rs
--   Tty             `TTY` of kernel/src/display.rs, over the interface Tty.Device of a screen
--   Font            kernel/src/font.rs
--   Console         the screen of Tty that Font and Display make up, with the static `FONT_HEIGHT`
--   Syscall         `syscall_handler` of kernel/src/syscall.rs, over the interface Syscall.Services;
--                   Syscall.Entry is the assembly around it
--   Pci             kernel/src/pci.rs, over the interface Pci.Access of the machine; Pci.Registers has what
--                   its laws ask of a register
--   Apic            kernel/src/apic.rs, over the interfaces of Apic.Access: Apic itself has `IoApic` and
--                   `RedTbl`, Apic.Local the local APIC and the PIC
--   Interrupts      kernel/src/interrupts.rs, and kernel/src/sleep.rs in Interrupts.Sleep
--   Start           parts of `kernel_main` and `init_ramdisk` of kernel/src/main.rs; Start.Panic is its
--                   panic handler
--   Log             kernel/src/logging.rs and kernel/src/serial.rs, over the interface Log.Device of a port
--   Png             kernel/src/png.rs, over a decoder as a parameter
--   Ide             kernel/src/drivers/ide.rs: Ide itself has its computations, Ide.Driver the accesses
--                   to registers, Ide.Sectors the transfers, over the interface Ide.Io of the machine
--   Nvme            kernel/src/drivers/nvme.rs: its queues over the page functions, and Nvme.Commands
--   Rtl8139         kernel/src/drivers/rtl8139.rs, over the interface Rtl8139.Machine; Rtl8139.Init is `init`
--   Acpi            `init_pcie_from_acpi` and `map_ecam_region` of kernel/src/acpi.rs, over the interface
--                   Pages.AddressSpace of the page tables
--   Keyboard        kernel/src/keyboard.rs, one step for each part that an interrupt cannot divide
--   Memory          kernel/src/memory.rs
--   Pages           the page functions of kernel/src/allocator/mod.rs, over the interface
--                   Pages.AddressSpace of the page tables; Pages.Table has the laws of tables that work
--   Elf             kernel/src/elf.rs, over the page functions and the interface Elf.Image
--   Executor        kernel/src/executor.rs, over the interface Executor.Runtime; its queue of tasks is a list
--                   of at most 100 identifiers
--   CommandLine     kernel/src/commandline.rs, over the interface CommandLine.Terminal
--
-- A function keeps the name of the code's function. State is passed explicitly: a call takes the state
-- and returns it. Code that may panic has results in `Run`: an index out of range, a failed assertion,
-- an `unwrap` of nothing and an arithmetic overflow, which the dev profile checks, end in `panic`. A
-- `usize` is a natural number below 2^64, and its operations write the check or the wrap-around out;
-- plain sums stand where a comment says why they cannot overflow. An address is a number and the null
-- pointer is 0. The list of free regions of LinkedList is the chain of nodes in the free memory. The
-- locks around the allocators, the frame buffer, the terminal and the network card make each call one
-- step, which begins when the lock is free; only the messages and the panic handler, Log and
-- Start.Panic, have a lock of the terminal or the serial line that is held for ever in their state. A
-- page fault in the kernel counts as a panic, since its handler does not come back.
--
-- The linked list allocator refines an abstract heap, Allocator.Contract. The terminal draws
-- through Console, the command line reads files through Ustar, the ELF loader allocates through
-- Pages, the interrupt handlers fill the queue of Keyboard and service the card of Rtl8139, Log
-- writes to the serial line and through Tty, the start of Rtl8139 goes through Pci, and Start puts
-- the archive, Ustar and Elf together.
--
-- Loops are structural or count down (`for_range`). Three loops run on fuel with a proof that enough is
-- given: `read_file` of Ustar has one round for each block of the archive and one more, and each round
-- goes on by a block at least; `write_str` of Tty has one round for each character and one more, and
-- each round takes a character; `run_ready_tasks` of Executor has one round for each number in the queue
-- and for each wake that is still to come. The waits for a device in Ide, Rtl8139, Apic.Local and
-- Interrupts.Sleep run on fuel that stands for the device's time: nothing bounds them in the code. A
-- call of Ide that waits for a lock that it holds itself is stuck as well.
--
-- Not modelled: of NVMe, the registers, the start-up, and `submit_cmd_to_queue` with what is built on
-- it, since it copies a command over the fields of a queue through a pointer to one of them, and Rust
-- leaves their layout open; of IDE, `init_ide` and the ends of `ide_atapi_read` and `ide_atapi_eject`,
-- which are not reached since these functions wait for a lock that they hold; `print_keypresses`, and
-- the handler of acpi.rs; of main.rs, the order of the calls before the set-up of the interrupts and
-- `rdrand`; gdt.rs, which fills tables of the processor. The crates linked_list_allocator,
-- bootloader_api, x86_64, goblin, pc_keyboard, acpi, uart_16550 and zune_png, in Keyboard also
-- crossbeam_queue and futures_util (Keyboard.Shared), the machine behind port and memory accesses, and
-- user memory appear as parameters only. A formatted text is the pieces that the formatting hands on.
-- The reading of the page table register in memory.rs and the wording of the fixed texts of the
-- command line are left out. Lowercase letters are those of ASCII.
pub mod Base
pub mod Acpi
pub mod Allocator
pub mod Ustar
pub mod CommandLine
pub mod Console
pub mod Display
pub mod Tty
pub mod Nvme
pub mod Pages
pub mod Keyboard
pub mod Log
pub mod Memory
pub mod Elf
pub mod Executor
pub mod Font
pub mod Ide
pub mod Interrupts
pub mod Rtl8139
pub mod Start
pub mod Syscall
pub mod Pci
pub mod Png
pub mod Apic
