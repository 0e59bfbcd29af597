-- ===== src/Elf.antt =====
-- The ELF loader of kernel/src/elf.rs: `Process` and its `init`, `alloc_stack` and `switch`. The parser
-- of goblin, the page tables and the memory that is written are parameters; a state is the `NEXT_VIRT`
-- of `alloc_pages_user` with the machine's state.
pub mod Image
pub mod Size
pub mod Segments
pub mod Start
pub mod Samples
mod Tests
use lemoncake.Base.{
  ℕ, ◌+◌, ◌-◌, ◌^◌, min, ltb, ◌==◌, if◌then◌else◌, not, List, [], ◌∷◌, Option, none, some,
}
use lemoncake.Base.{Run, done, panic, ◌>>=◌, add_w, length, take, replicate, slice, unwrap}
use lemoncake.Pages.{alloc, alloc_pages, user_flags}
use Image.{Header, Elf, Machine}

-- `PT_LOAD`
abbrev pub pt_load : ℕ
pt_load = 1

pub data ProcInitError : Type 0 where
  allocation_error : ProcInitError
  invalid_elf : ProcInitError

pub data ProcSwitchError : Type 0 where
  stack_error : ProcSwitchError
  init_error : ProcSwitchError

pub record Process : Type 0 where
  pub pid : Option ℕ
  pub stack_addr : Option ℕ
  pub data_bytes : List ℕ
  pub entrypoint : Option ℕ

unfoldable pub new : List ℕ → Process
new data_bytes = record {
  pid = none;
  stack_addr = none;
  data_bytes = data_bytes;
  entrypoint = none;
}

-- `if req_sz < phdr.p_vaddr { req_sz += phdr.p_vaddr; }`
abbrev pub raised : ℕ → Header → Run ℕ
raised req_sz phdr = if ltb req_sz phdr.p_vaddr then add_w 64 req_sz phdr.p_vaddr else done req_sz

unfoldable pub required_size : ℕ → List Header → Run ℕ
required_size req_sz [] = done req_sz
required_size req_sz (phdr ∷ rest) =
    if phdr.p_type == pt_load
    then raised req_sz phdr >>= (λ r. add_w 64 r phdr.p_memsz) >>= (λ r. required_size r rest)
    else required_size req_sz rest

module _ (machine : Machine) where
  open machine use {space, parse, write}
  open space use {State}

  -- The two writes to `dst`.
  unfoldable pub fill : ℕ → ℕ → List ℕ → State → State
  fill address memsz src s =
      let copy_len = min (length src) memsz in
      let s' = write address (take copy_len src) s in
      if ltb copy_len memsz
      then write (address + copy_len) (replicate (memsz - copy_len) 0) s'
      else s'

  unfoldable pub load_segment : ℕ → List ℕ → Header → State → Run State
  unfolding fill
  load_segment user_base bytes phdr s = do
    address ← add_w 64 user_base phdr.p_vaddr
    end ← add_w 64 phdr.p_offset phdr.p_filesz
    src ← slice phdr.p_offset end bytes
    done (fill address phdr.p_memsz src s)

  unfoldable pub load_segments : ℕ → List ℕ → List Header → State → Run State
  unfolding load_segment
  load_segments user_base bytes [] s = done s
  load_segments user_base bytes (phdr ∷ rest) s =
      if phdr.p_type == pt_load
      then load_segment user_base bytes phdr s >>= load_segments user_base bytes rest
      else load_segments user_base bytes rest s

  -- `init` behind the call of `alloc_user`
  abbrev pub init_at :
      Process → Elf → Option ℕ × ℕ × State → Run (Option ProcInitError × Process × ℕ × State)
  init_at p elf (none, next, s) = done (some ProcInitError.allocation_error, p, next, s)
  init_at p elf (some user_base, next, s) = do
    s' ← load_segments user_base p.data_bytes elf.program_headers s
    entry ← add_w 64 elf.entry user_base
    done (none, record p { entrypoint = some entry }, next, s')

  abbrev pub init_parsed :
      Process → ℕ × State → Option Elf → Run (Option ProcInitError × Process × ℕ × State)
  init_parsed p (next, s) none = done (some ProcInitError.invalid_elf, p, next, s)
  init_parsed p m (some elf) = do
    req_sz ← required_size 0 elf.program_headers
    r ← alloc space user_flags req_sz m
    init_at p elf r

  unfoldable pub init : Process → ℕ × State → Run (Option ProcInitError × Process × ℕ × State)
  unfolding required_size load_segments
  init p m = init_parsed p m (parse p.data_bytes)

  unfoldable pub alloc_stack : ℕ → ℕ × State → Run (Option ℕ × ℕ × State)
  alloc_stack pages m = alloc_pages space user_flags pages m

  -- How `switch` ends: it returns an error, or jumps to user mode at an entry with a stack.
  pub data Switched : Type 0 where
    returned : ProcSwitchError → Switched
    jumped : ℕ → ℕ → Switched

  -- `jump_to_usermode` with both addresses unwrapped
  abbrev pub jump : Process → ℕ → State → Run (Switched × Process × ℕ × State)
  jump p next s = do
    entry ← unwrap p.entrypoint
    stack ← unwrap p.stack_addr
    done (jumped entry stack, p, next, s)

  abbrev pub with_new_stack : Process → Option ℕ × ℕ × State → Run (Switched × Process × ℕ × State)
  with_new_stack p (none, next, s) = done (returned ProcSwitchError.stack_error, p, next, s)
  with_new_stack p (some stack, next, s) = jump (record p { stack_addr = some stack }) next s

  abbrev pub with_stack : ℕ → Option ℕ → Process → ℕ × State → Run (Switched × Process × ℕ × State)
  with_stack pages (some stack) p (next, s) = jump p next s
  with_stack pages none p m = alloc_stack pages m >>= with_new_stack p

  abbrev pub after_init :
      ℕ → Option ProcInitError × Process × ℕ × State → Run (Switched × Process × ℕ × State)
  after_init pages (some e, p, next, s) = done (returned ProcSwitchError.init_error, p, next, s)
  after_init pages (none, p, next, s) = with_stack pages p.stack_addr p (next, s)

  abbrev pub with_entry : ℕ → Option ℕ → Process → ℕ × State → Run (Switched × Process × ℕ × State)
  with_entry pages (some entry) p m = with_stack pages p.stack_addr p m
  with_entry pages none p m = init p m >>= after_init pages

  unfoldable pub switch : ℕ → Process → ℕ × State → Run (Switched × Process × ℕ × State)
  switch pages p m = with_entry pages p.entrypoint p m
