-- ===== src/Log.antt =====
-- The messages of kernel/src/logging.rs and kernel/src/serial.rs: what is printed goes to the serial
-- line and to the terminal. A formatted text is the list of the pieces that `write!` hands to
-- `write_str` one by one; the serial port of the crate `uart_16550` is a parameter.
pub mod Device
pub mod Arrive
pub mod Samples
mod Tests
use lemoncake.Base.{
  ℕ, Bool, if◌then◌else◌, List, [], ◌∷◌, ◌++◌, Option, none, some, Run, done, panic, codes,
}
use lemoncake.Tty.{Tty, write_str}
use lemoncake.Tty.Device.{Screen}
use Device.{Serial}

pub data Level : Type 0 where
  info : Level
  warning : Level
  error : Level
  nftodo : Level

-- `file!()`, `line!()` and `column!()`, formatted.
pub record Location : Type 0 where
  pub file : List ℕ
  pub line : List ℕ
  pub column : List ℕ

-- The face of a level, with the feature `status-faces`.
abbrev pub face : Level → List ℕ
face Level.info = codes "(o_o) "
face Level.warning = codes "(0_0) "
face Level.error = codes "(X_X) "
face Level.nftodo = codes "(-_-) "

-- The last piece of the macros that name the place, with the end of the line of `all_println!`.
abbrev pub tagged : List ℕ → List ℕ → List ℕ → List (List ℕ) → Location → List (List ℕ)
tagged colour face_text tag message at =
    (colour ∷ face_text ∷ tag ∷ [])
    ++ message
    ++ codes " ["
      ∷ at.file
      ∷ codes "@L"
      ∷ at.line
      ∷ codes ":"
      ∷ at.column
      ∷ (codes "]" ++ 10 ∷ [])
      ∷ []

-- The pieces of `info!`, `warning!`, `error!` and `nftodo!`; 27 is `\x1b`.
unfoldable pub pieces_of : Bool → Level → List (List ℕ) → Location → List (List ℕ)
pieces_of faces Level.info message at =
    ((27 ∷ codes "[34m")
      ∷ (if faces then face Level.info else [])
      ∷ (codes "[INFO ]:" ++ 27 ∷ codes "[0m ")
      ∷ [])
    ++ message
    ++ (10 ∷ []) ∷ []
pieces_of faces Level.warning message at =
    tagged (27 ∷ codes "[33m") (if faces then face Level.warning else [])
      (codes "[WARN ]:" ++ 27 ∷ codes "[0m ") message at
pieces_of faces Level.error message at =
    tagged (27 ∷ codes "[31m") (if faces then face Level.error else [])
      (codes "[ERROR]:" ++ 27 ∷ codes "[0m ") message at
pieces_of faces Level.nftodo message at =
    tagged (27 ∷ codes "[35m") (if faces then face Level.nftodo else [])
      (codes "[TODO ]:" ++ 27 ∷ codes "[0m ") message at

abbrev pub complaint : List ℕ
complaint = codes "No TTY available!" ++ 10 ∷ []

module _ (serial : Serial) where
  -- `serial::_print`; an error of the port panics by the `expect`.
  unfoldable pub serial_print : List (List ℕ) → serial.State → Run serial.State
  serial_print [] s = done s
  serial_print (piece ∷ pieces) s = elim (serial.write_str piece s) [
    | none ↦ panic
    | some s' ↦ serial_print pieces s'
  ]

module _ (screen : Screen) where
  -- `write!` on a terminal; `none` means that the fuel of a piece ran out.
  unfoldable pub tty_print : List (List ℕ) → Tty × screen.State → Option (Run (Tty × screen.State))
  tty_print [] w = some (done w)
  tty_print (piece ∷ pieces) w = elim (write_str screen piece w) [
    | none ↦ none
    | some panic ↦ some panic
    | some (done w') ↦ tty_print pieces w'
  ]

module _ (screen : Screen) (serial : Serial) where
  -- `TTY`, the screen and `SERIAL1`, and whether someone who does not go on holds the lock of the
  -- first or of the last, as the code that panicked may.
  pub record Output : Type 0 where
    pub tty : Option Tty
    pub shown : screen.State
    pub line : serial.State
    pub tty_held : Bool
    pub line_held : Bool

  -- The output with what the terminal left.
  abbrev pub on_screen :
      Output → serial.State → Option (Run (Tty × screen.State)) → Option (Run Output)
  on_screen o line none = none
  on_screen o line (some panic) = some panic
  on_screen o line (some (done (t, s))) =
      some (done (record o { tty = some t; shown = s; line = line }))

  abbrev pub shown_on : List (List ℕ) → Output → Option Tty → serial.State → Option (Run Output)
  shown_on pieces o none line = some (done (record o { line = line }))
  shown_on pieces o (some t) line = on_screen o line (tty_print screen pieces (t, o.shown))

  -- `logging::_print`, behind `all_print!` and `all_println!`. A lock that is held is waited for
  -- without an end: `none`.
  unfoldable pub all_print : List (List ℕ) → Output → Option (Run Output)
  all_print pieces o = if o.line_held then none else elim (serial_print serial pieces o.line) [
    | panic ↦ some panic
    | done line ↦ if o.tty_held then none else shown_on pieces o o.tty line
  ]

  -- One of the four macros.
  unfoldable pub log : Bool → Level → List (List ℕ) → Location → Output → Option (Run Output)
  log faces level message at o = all_print (pieces_of faces level message at) o

  abbrev pub on_line : Output → Run serial.State → Option (Run Output)
  on_line o panic = some panic
  on_line o (done line) = some (done (record o { line = line }))

  -- `serial::_print` on `SERIAL1`
  unfoldable pub line_print : List (List ℕ) → Output → Option (Run Output)
  line_print pieces o = if o.line_held then none else on_line o (serial_print serial pieces o.line)

  -- `print!`; with no terminal, `serial_println!`.
  abbrev pub print_on : List (List ℕ) → Output → Option Tty → Option (Run Output)
  print_on pieces o none = line_print (complaint ∷ []) o
  print_on pieces o (some t) = on_screen o o.line (tty_print screen pieces (t, o.shown))

  unfoldable pub print : List (List ℕ) → Output → Option (Run Output)
  unfolding line_print
  print pieces o = if o.tty_held then none else print_on pieces o o.tty
