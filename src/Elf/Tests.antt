-- ===== src/Elf/Tests.antt =====
-- A program of two segments, for kernel/src/elf.rs.
use lemoncake.Base.{ℕ, ◌+◌, ◌≤◌, ◌≡◌, inl, refl, arith}
use lemoncake.Base.{none, some, done, List, [], ◌∷◌, All}
use lemoncake.Pages.Samples.{Counter, counter_space, counter_tables}
use lemoncake.Pages.{user_base}
use lemoncake.Pages.Alloc.{Mapped}
use lemoncake.Elf.Image.{Header, Elf, Machine}
use lemoncake.Elf.{new, required_size, load_segments, init}
use lemoncake.Elf.Size.{Covered, required_size-Covered}
use lemoncake.Elf.Segments.{Memory, Loaded, Outside, Valid, Disjoint, load_segments-Placed}
use lemoncake.Elf.Samples.{Bytes, machine_for, memory_for}
use lemoncake.Elf.Start.{InFile, init-Loaded}

-- 16 bytes of code, and 4 bytes of data in 8 bytes of memory.
abbrev two_segments : List Header
two_segments =
    record { p_type = 1; p_offset = 2; p_vaddr = 0; p_filesz = 3; p_memsz = 3 }
    ∷ record { p_type = 6; p_offset = 900; p_vaddr = 1; p_filesz = 1; p_memsz = 1 }
    ∷ record { p_type = 1; p_offset = 5; p_vaddr = 8; p_filesz = 2; p_memsz = 4 }
    ∷ []

abbrev two_segment_file : Elf
two_segment_file = record { program_headers = two_segments; entry = 1 }

abbrev sample : Machine
sample = machine_for two_segment_file

abbrev sample_memory : Memory sample
sample_memory = memory_for two_segment_file

abbrev file : List ℕ
file = 0x7f ∷ 0x45 ∷ 11 ∷ 12 ∷ 13 ∷ 21 ∷ 22 ∷ []

abbrev empty : Counter Bytes
empty = (100, (λ p. none), λ p. 255)

required_size-Covered_example :
    (n : ℕ) × (required_size 0 two_segments ≡ done n)
    × (0 ≤ n)
    × (n ≤ 15)
    × All (Covered n) two_segments
required_size-Covered_example = required_size-Covered two_segments 0 (omega arith)

valid : All (Valid user_base file) two_segments
valid = (
  (λ _. (omega arith, omega arith, omega arith)),
  ((λ e. absurd (omega (arith, e))), ((λ _. (omega arith, omega arith, omega arith)), tt)),
)

in_file : All (InFile file) two_segments
in_file = (
  (λ _. (omega arith, omega arith)),
  ((λ e. absurd (omega (arith, e))), ((λ _. (omega arith, omega arith)), tt)),
)

disjoint : Disjoint two_segments
disjoint = (
  (λ _. ((λ e. absurd (omega (arith, e))), ((λ _. inl (omega arith)), tt))),
  ((λ e. absurd (omega (arith, e))), ((λ _. tt), tt)),
)

load_segments-Placed_example :
    (s' : Counter Bytes) × (load_segments sample user_base file two_segments empty ≡ done s')
    × All (Loaded sample sample_memory user_base file s') two_segments
    × ((p : ℕ) → All (Outside sample sample_memory user_base p) two_segments → s'.2 p ≡ 255)
load_segments-Placed_example =
    load_segments-Placed sample sample_memory user_base file two_segments empty valid disjoint

init-Loaded_example :
    (s' : Counter Bytes) × (init sample (new file) (user_base, empty)
      ≡ done (
        none,
        record {
          pid = none;
          stack_addr = none;
          data_bytes = file;
          entrypoint = some (user_base + 1);
        },
        user_base + 8192,
        s',
      ))
    × All (Loaded sample sample_memory user_base file s') two_segments
    × All (Covered 8192) two_segments
    × Mapped (counter_space Bytes) (counter_tables Bytes) 0xffffffff90000 2 empty s'
unfolding new required_size
init-Loaded_example =
    init-Loaded sample (counter_tables Bytes) sample_memory (λ address p bytes s. refl) (new file)
      two_segment_file user_base 15 empty refl (omega arith) refl (omega arith)
      (record { high = omega arith; whole = refl; fits = omega arith }) (omega arith) (λ i h. refl)
      in_file disjoint (omega arith)
