-- ===== src/Log/Device.antt =====
-- What kernel/src/serial.rs needs of the port of the crate `uart_16550`.
use lemoncake.Base.{ℕ, List, ◌++◌, ◌≡◌, Option, some}

pub record Serial : Type 1 where
  pub State : Type 0
  -- `write_str`; `none` is its error
  pub write_str : List ℕ → State → Option State

-- A port that sends every text.
pub record Sends (serial : Serial) : Type 0 where
  pub received : serial.State → List ℕ
  pub write_str :
      (text : List ℕ) (s : serial.State)
      → (s' : serial.State) × (serial.write_str text s ≡ some s')
        × (received s' ≡ received s ++ text)
