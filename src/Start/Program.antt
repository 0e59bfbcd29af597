-- ===== src/Start/Program.antt =====
-- The first program that kernel/src/main.rs starts.
use lemoncake.Base.{
  ℕ, ◌≤◌, ◌/◌, ◌^◌, ◌+◌, ◌-◌, ◌<◌, ◌≡◌, ◌⊎◌, inl, inr, refl, List, length, is_utf8, none, some,
  Option, done, ◌>>=◌,
}
use lemoncake.Pages.Table.{Tables}
use lemoncake.Pages.Alloc.{Room, Mapped}
use lemoncake.Ustar.{File, read_file}
use lemoncake.Ustar.Lookup.{Named, read_file-Finds}
use lemoncake.Ustar.Agree.{Listed, Listed-read_file}
use lemoncake.Elf.Image.{Machine}
use lemoncake.Elf
use lemoncake.Elf.{Process, init, switch, jumped}
use lemoncake.Elf.Segments.{Memory}
use lemoncake.Elf.Start.{Separate, switch-stack}
use lemoncake.Start.{shell, user, expect_jump, file_name, start_program}

module _ (machine : Machine) where
  open machine use {space}
  open space use {State}

  -- `switch` initialises a new process, and goes on with it.
  switch-init :
      (content : List ℕ) (p : Process) (pages entry next : ℕ) (m : ℕ × State) (s : State)
      → init machine (Elf.new content) m ≡ done (none, p, next, s)
      → p.entrypoint ≡ some entry
      → switch machine pages (Elf.new content) m ≡ switch machine pages p (next, s)
  unfolding switch Elf.new
  switch-init content p pages entry next m s run started = rw (run, started) refl

  -- For an archive of fewer than 2^63 bytes: the start ends its search and goes to the command line, or
  -- to `switch` with the content of a file that is named `init`.
  start_program-Chooses :
      (archive : List ℕ) (m : ℕ × State)
      → length archive < 2 ^ 63
      → (start_program machine archive m ≡ some (done shell))
        ⊎ ((i : File) × (i.filename ≡ file_name)
            × (start_program machine archive m
                ≡ some (switch machine 10 (Elf.new i.content) m >>= expect_jump machine)))
  unfolding start_program is_utf8
  start_program-Chooses archive m small =
      let (o, run, named) = read_file-Finds archive file_name small refl in chosen o run named
    where
      chosen :
          (o : Option File)
          → read_file archive file_name ≡ some (done o)
          → Named file_name o
          → (start_program machine archive m ≡ some (done shell))
            ⊎ ((i : File) × (i.filename ≡ file_name)
                × (start_program machine archive m
                    ≡ some (switch machine 10 (Elf.new i.content) m >>= expect_jump machine)))
      chosen none run named = inl (rw (start_program, run) refl)
      chosen (some i) run named = inr (i, named, rw (start_program, run) refl)

  module _ (t : Tables space) (memory : Memory machine) (separate : Separate machine t) where
    -- Where the iterator lists a file `init` in the archive, its `init` succeeds with an entry point, and
    -- the ten pages behind are fresh with four frames left for each: the start jumps to user mode at this
    -- entry point, with the first address behind the program's pages as the stack pointer. The ten
    -- pages above it are mapped, and the page below it, which a push writes to, is as it was.
    pub start_program-Jumps :
        (archive : List ℕ) (i : File) (p : Process) (entry next : ℕ) (m : ℕ × State) (s : State)
        → length archive < 2 ^ 63
        → Listed archive file_name i 0
        → init machine (Elf.new i.content) m ≡ done (none, p, next, s)
        → p.entrypoint ≡ some entry
        → p.stack_addr ≡ none
        → Room next 10
        → 40 ≤ t.left s
        → ((k : ℕ) → k < 10 → t.table s (next / 4096 + k) ≡ none)
        → (s' : State) × (start_program machine archive m
            ≡ some (done (user entry next (record p { stack_addr = some next }) (next + 40960) s')))
          × Mapped space t (next / 4096) 10 s s'
          × (t.table s' (next / 4096 - 1) ≡ t.table s (next / 4096 - 1))
    unfolding start_program
    start_program-Jumps archive i p entry next m s small listed loaded started no_stack room enough
          fresh =
        let found = Listed-read_file archive file_name i small listed in
        let starts = switch-init i.content p 10 entry next m s loaded started in
        let (s', run, mapped, below) =
          switch-stack machine t memory separate p entry 10 next s started no_stack room enough
            fresh in
        (s', rw (start_program, found, starts, run) refl, mapped, below)
