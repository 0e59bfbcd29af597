-- ===== src/Syscall.antt =====
-- `syscall_handler` of kernel/src/syscall.rs: the calls by their numbers, on the registers that it
-- reads. User memory, the log, the clock, the random numbers and the terminal are a parameter.
pub mod Services
pub mod Decimal
pub mod Calls
pub mod Entry
mod Tests
use lemoncake.Base.{ℕ, zero, suc, ◌+◌, ◌-◌, ◌/◌, ◌%◌, ◌^◌, min, ltb, leb, ◌==◌, ◌||◌, if◌then◌else◌}
use lemoncake.Base.{List, Option, none, some, Run, done, panic, length, take, is_utf8, word}
use Services.{Kernel, Message}
use Decimal.{decimal}

-- `MAX_PRINT`
abbrev pub max_print : ℕ
max_print = 4096

-- `usize::MAX`
abbrev pub failure : ℕ
failure = word - 1

module _ (kernel : Kernel) where
  open kernel use {State, read_bytes, write_bytes, print, log, sleep_ms, rdrand, yay, sad}

  -- The `match` on the stream of `write`.
  unfoldable pub print_to : ℕ → List ℕ → ℕ → State → ℕ × State
  print_to stream bytes len s =
      if stream == 1 || stream == 2 || stream == 3 || stream == 4 || stream == 5
      then (len, print stream bytes s)
      else (failure, s)

  unfoldable pub write : ℕ → ℕ → ℕ → State → ℕ × State
  unfolding print_to
  write stream address len s =
      if len == 0 || ltb max_print len || address == 0
      then (failure, log Message.bad_print s)
      else (let bytes = read_bytes address len s in
          if is_utf8 bytes then print_to stream bytes len s else (len, log Message.garbage s))

  -- `for i in 0..25`
  unfoldable pub random : ℕ → State → ℕ × State
  random zero s = (failure, s)
  random (suc n) s = let (r, s') = rdrand s in elim r [ some v ↦ (v, s') | none ↦ random n s' ]

  unfoldable pub inttostr : ℕ → ℕ → ℕ → State → ℕ × State
  unfolding decimal
  inttostr buffer size number s =
      let istr = decimal number in
      let to_write = min (length istr) size in
      if to_write == 0 then (failure, s) else (to_write, write_bytes buffer (take to_write istr) s)

  unfoldable pub emoticon : ℕ → State → ℕ × State
  emoticon face s = if face == 1 then (0, yay s) else if face == 2 then (0, sad s) else (failure, s)

  unfoldable pub syscall_handler : ℕ → ℕ → ℕ → ℕ → State → Run (ℕ × State)
  unfolding write random inttostr emoticon
  syscall_handler rax rdi rsi rdx s =
      if rax == 0
      then done (0, s)
      else if rax == 1
      then done (write rdi rsi rdx s)
      else if rax == 2
      then panic
      else if rax == 3
      then done (0, sleep_ms rdi s)
      else if rax == 4
      then done (random 25 s)
      else if rax == 5
      then done (inttostr rdi rsi rdx s)
      else if rax == 6
      then done (emoticon rdi s)
      else if rax == 7
      then done (0, log Message.listdir s)
      else if rax == 8
      then done (0, log Message.filesize s)
      else done (failure, log Message.invalid s)
