-- ===== src/CommandLine/Terminal.antt =====
-- What kernel/src/commandline.rs needs of the kernel: the terminal, the archive and the ports, and the
-- texts that it prints, where the fixed texts are their names.
use lemoncake.Base.{ℕ, List, Option}

-- An `i32`; the code below returns small ones only.
pub data ℤ : Type 0 where
  pos : ℕ → ℤ
  -- -(n + 1)
  negsuc : ℕ → ℤ

pub data Output : Type 0 where
  license_text : Output
  credits_text : Output
  whoami_text : Output
  shutdown_usage : Output
  invalid_type : List ℕ → Output
  no_framebuffer : Output
  resolution : ℕ → ℕ → Output
  no_filesystem : Output
  file_count : ℕ → Output
  file_line : List ℕ → ℕ → Output
  cat_usage : Output
  not_read : List ℕ → Output
  not_found : List ℕ → Output
  no_registry : Output
  registry_exists : Output
  prompt : ℤ → Output
  newline : Output
  erase : Output
  -- any other text
  text : List ℕ → Output

pub record Console : Type 1 where
  pub World : Type 0
  pub print : Output → World → World
  pub yay : World → World
  pub sad : World → World
  pub clear : World → World
  -- the width and the height
  pub framebuffer : World → Option (ℕ × ℕ)
  -- the bytes of the archive
  pub fs : World → Option (List ℕ)
  -- a `u32` to a port
  pub write_port : ℕ → ℕ → World → World
