-- ===== src/Syscall/Services.antt =====
-- What kernel/src/syscall.rs needs of the rest of the kernel.
use lemoncake.Base.{ℕ, List, Option}

-- The messages that the handler itself logs.
pub data Message : Type 0 where
  bad_print : Message
  garbage : Message
  listdir : Message
  filesize : Message
  invalid : Message

pub record Kernel : Type 1 where
  pub State : Type 0
  -- the slice of `from_raw_parts`: its address and its length
  pub read_bytes : ℕ → ℕ → State → List ℕ
  pub write_bytes : ℕ → List ℕ → State → State
  -- `print!`, `info!`, `warning!`, `error!` and `nftodo!`, numbered as the call numbers them
  pub print : ℕ → List ℕ → State → State
  pub log : Message → State → State
  pub sleep_ms : ℕ → State → State
  pub rdrand : State → Option ℕ × State
  pub yay : State → State
  pub sad : State → State
