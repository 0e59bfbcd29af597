-- ===== src/Elf/Start.antt =====
-- What `init` and `switch` of kernel/src/elf.rs do to a machine with room for the program.
use lemoncake.Base.{
  ℕ, ◌+◌, ◌-◌, ◌*◌, ◌/◌, ◌^◌, ◌≤◌, ◌<◌, ◌≡◌, inl, refl, sym, ◌∙◌, arith, true, false, max, ltb,
  ◌==◌, word,
}
use lemoncake.Base.{List, [], ◌∷◌, none, some, All, length, done, lt→ltb, ≢→==, done-injective}
use lemoncake.Pages.{alloc, div_ceil, user_flags}
use lemoncake.Pages.Table.{Tables}
use lemoncake.Pages.Alloc.{Room, Mapped, Mapped-same, alloc_pages-Mapped}
use lemoncake.Elf.Image.{Header, Elf, Machine}
use lemoncake.Elf.{Process, required_size, init, switch, jumped, alloc_stack}
use lemoncake.Elf.Size.{total, Covered, required_size-Covered}
use lemoncake.Elf.Segments.{
  Memory, Loads, Valid, Disjoint, Loaded, load_segments-Placed, load_segments_keep,
}

-- A segment whose bytes are in the file.
abbrev pub InFile : List ℕ → Header → Type 0
InFile bytes phdr =
    Loads phdr
    → (phdr.p_offset + phdr.p_filesz ≤ length bytes) × (phdr.p_offset + phdr.p_filesz < word)

Valid-InFile :
    (base size : ℕ) (bytes : List ℕ) (hs : List Header)
    → base + size < word
    → All (InFile bytes) hs
    → All (Covered size) hs
    → All (Valid base bytes) hs
Valid-InFile base size bytes [] h f c = tt
Valid-InFile base size bytes (phdr ∷ rest) h (f, fs) (c, cs) = (
  λ loads. let (a, b) = f loads in (a, b, omega (arith, c loads, h)),
  Valid-InFile base size bytes rest h fs cs,
)

-- Page tables that a write to memory leaves alone.
abbrev pub Separate : (machine : Machine) → Tables machine.space → Type 0
Separate machine t =
    (address p : ℕ) (bytes : List ℕ) (s : machine.space.State)
    → t.table (machine.write address bytes s) p ≡ t.table s p

module _ (machine : Machine) (t : Tables machine.space) (memory : Memory machine)
    (separate : Separate machine t) where
  open machine use {space, parse}
  open space use {State}

  -- A parsed executable whose segments are in the file, do not overlap, are not all empty and do not
  -- overflow, on fresh pages with four frames left for each: `init` does not fail or panic. It maps
  -- the pages from `NEXT_VIRT` on, with room for every segment, puts every byte of every segment in
  -- place, and sets the entry point.
  pub init-Loaded :
      (p : Process) (elf : Elf) (base n : ℕ) (s : State)
      → parse p.data_bytes ≡ some elf
      → total elf.program_headers < word
      → required_size 0 elf.program_headers ≡ done n
      → 0 < n
      → Room base (max (div_ceil n 4096) 2)
      → 4 * max (div_ceil n 4096) 2 ≤ t.left s
      → ((i : ℕ) → i < max (div_ceil n 4096) 2 → t.table s (base / 4096 + i) ≡ none)
      → All (InFile p.data_bytes) elf.program_headers
      → Disjoint elf.program_headers
      → elf.entry + base < word
      → (s' : State) × (init machine p (base, s)
          ≡ done (
            none,
            record p { entrypoint = some (elf.entry + base) },
            base + max (div_ceil n 4096) 2 * 4096,
            s',
          ))
        × All (Loaded machine memory base p.data_bytes s') elf.program_headers
        × All (Covered (max (div_ceil n 4096) 2 * 4096)) elf.program_headers
        × Mapped space t (base / 4096) (max (div_ceil n 4096) 2) s s'
  unfolding init alloc
  init-Loaded p elf base n s parsed bounded sized some_bytes room enough fresh files disjoint
        entry =
      let hs = elf.program_headers in
      let k = max (div_ceil n 4096) 2 in
      let (n', sized', _, _, covered) = required_size-Covered hs 0 (omega (arith, bounded)) in
      let same : n' ≡ n = done-injective (sym sized' ∙ sized) in
      let covers = Covered-more n' (k * 4096) hs (omega (arith, same)) covered in
      let valid = Valid-InFile base (k * 4096) p.data_bytes hs room.fits files covers in
      let (s1, pages, m) = alloc_pages-Mapped space t user_flags k base s room enough fresh in
      let (s2, run, placed, _) =
        load_segments-Placed machine memory base p.data_bytes hs s1 valid disjoint in
      let full : (n == 0) ≡ false = ≢→== _ _ (λ e. omega (arith, e, some_bytes)) in
      let small : ltb (elf.entry + base) (2 ^ 64) ≡ true = lt→ltb _ _ entry in
      let m' =
        load_segments_keep machine memory (Mapped space t (base / 4096) k s)
          (λ a bs s3 h. Mapped-same space t (base / 4096) k s s3 _ (λ q. separate a q bs s3) h) base
          p.data_bytes hs s1 valid m run in
      (s2, rw (parsed, sized, full, pages, run, small) refl, placed, covers, m')
    where
      Covered-more : (a b : ℕ) (hs : List Header) → a ≤ b → All (Covered a) hs → All (Covered b) hs
      Covered-more a b [] h c = tt
      Covered-more a b (phdr ∷ rest) h (c, cs) =
          (λ loads. omega (arith, c loads, h), Covered-more a b rest h cs)

  -- `switch` of an initialised process without a stack, on fresh pages with four frames left for each:
  -- it jumps to the entry point with the lowest address of the new stack as the stack pointer, so
  -- that the stack's pages are above it, and the page below it is as it was.
  pub switch-stack :
      (p : Process) (entry pages base : ℕ) (s : State)
      → p.entrypoint ≡ some entry
      → p.stack_addr ≡ none
      → Room base pages
      → 4 * pages ≤ t.left s
      → ((i : ℕ) → i < pages → t.table s (base / 4096 + i) ≡ none)
      → (s' : State) × (switch machine pages p (base, s)
          ≡ done (jumped entry base, record p { stack_addr = some base }, base + pages * 4096, s'))
        × Mapped space t (base / 4096) pages s s'
        × (t.table s' (base / 4096 - 1) ≡ t.table s (base / 4096 - 1))
  unfolding switch alloc_stack
  switch-stack p entry pages base s started fresh_stack room enough fresh =
      let (s', run, m) = alloc_pages-Mapped space t user_flags pages base s room enough fresh in
      (s', rw (started, fresh_stack, run) refl, m, m.outside _ (inl (omega (arith, room.high))))
