-- ===== src/Syscall/Tests.antt =====
-- The calls of kernel/src/syscall.rs on a kernel whose memory is one string.
use lemoncake.Base.{ℕ, ◌≡◌, List, [], ◌∷◌, none, done}
use lemoncake.Syscall.{syscall_handler}
use lemoncake.Syscall.Services.{Kernel}
use lemoncake.Syscall.Calls.{Wrote, write_call-Wrote}

abbrev console : Kernel
console = record {
  State = List ℕ;
  read_bytes = λ address len s. b'h' ∷ b'i' ∷ [];
  write_bytes = λ address text s. text;
  print = λ stream text s. text;
  log = λ message s. s;
  sleep_ms = λ ms s. s;
  rdrand = λ s. (none, s);
  yay = λ s. s;
  sad = λ s. s;
}

write_call-Wrote_example :
    (r : ℕ × List ℕ) × (syscall_handler console 1 2 4096 2 [] ≡ done r)
    × Wrote console 2 4096 2 [] r
write_call-Wrote_example = write_call-Wrote console 2 4096 2 []
