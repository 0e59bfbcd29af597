-- ===== src/CommandLine.antt =====
-- The command line of kernel/src/commandline.rs: the registry of commands, their functions, how a line
-- is run, and how keys edit a line. The keys that pc_keyboard decodes are its input.
pub mod Terminal
pub mod Words
pub mod Commands
pub mod Search
pub mod Line
mod Tests
use lemoncake.Base.{
  ℕ, Bool, true, false, if◌then◌else◌, ◌==◌, ◌||◌, List, [], ◌∷◌, ◌++◌, Option, none, some, Run,
  done, panic, ◌>>=◌,
}
use Terminal.{Console, Output, ℤ, pos, negsuc}
use Words.{trim, split, is_comment, is_empty, pop}
use Commands.{Registry, Command, search, run_command, registered}

module _ (console : Console) where
  open console use {World, print}

  abbrev found : Option Command → Registry → List (List ℕ) → World → Run (Option ℤ × World)
  found none registry args w = done (none, w)
  found (some cmd) registry args w =
      run_command console cmd.func registry args w >>= λ (code, w'). done (some code, w')

  unfoldable pub exec_command : Registry → List (List ℕ) → World → Run (Option ℤ × World)
  unfolding search
  exec_command registry [] w = done (none, w)
  exec_command registry (name ∷ args) w = found (search name registry) registry args w

  -- The `match` on what `exec_command` returns; the result is the return code.
  abbrev pub return_code : List ℕ → Option ℤ × World → ℤ × World
  return_code name (some code, w) = (code, w)
  return_code name (none, w) = (negsuc 0, print (Output.not_found name) w)

  -- `data.first().copied().unwrap_or("")`
  abbrev pub first_word : List (List ℕ) → List ℕ
  first_word [] = []
  first_word (word ∷ words) = word

  -- The registry is looked up twice, under its lock, and does not change in between.
  unfoldable pub process_command : List ℕ → ℤ → Option Registry → World → Run (ℤ × World)
  unfolding exec_command
  process_command buf prev_ret_code registry w =
      if is_comment (trim buf) || is_empty (trim buf)
      then done (prev_ret_code, w)
      else elim registry [
        | none ↦ done (negsuc 1, print Output.no_registry w)
        | some r ↦
            let words = split (trim buf) in
            exec_command r words w >>= λ result. done (return_code (first_word words) result)
      ]

  -- `DecodedKey`
  pub data Key : Type 0 where
    unicode : ℕ → Key
    raw_key : Key

  -- The variables of `run_command_line` and the static `COMMAND_REGISTRY`.
  pub record Session : Type 0 where
    pub input_buffer : List ℕ
    pub prev_ret_code : ℤ
    pub registry : Option Registry
    pub world : World

  unfoldable pub prompted : ℤ → List ℕ → Option Registry → World → Session
  prompted code buffer registry w = record {
    input_buffer = buffer;
    prev_ret_code = code;
    registry = registry;
    world = print (Output.prompt code) w;
  }

  -- Before the loop.
  unfoldable pub start : Option Registry → World → Session
  unfolding prompted
  start none w = prompted (pos 0) [] (some registered) w
  start (some registry) w = prompted (pos 0) [] (some registry) (print Output.registry_exists w)

  unfoldable pub on_character : ℕ → Session → Run Session
  unfolding process_command prompted
  on_character c s =
      if c == 8
      then done (record s { input_buffer = pop s.input_buffer; world = print Output.erase s.world })
      else if c == 10
      then (process_command s.input_buffer s.prev_ret_code s.registry (print Output.newline s.world)
          >>= λ (code, w). done (prompted code [] s.registry w))
      else done (record s {
        input_buffer = s.input_buffer ++ c ∷ [];
        world = print (Output.text (c ∷ [])) s.world;
      })

  unfoldable pub on_key : Key → Session → Run Session
  unfolding on_character
  on_key (unicode c) s = on_character c s
  on_key raw_key s = done s

  -- The loop over the keys that come.
  unfoldable pub on_keys : List Key → Session → Run Session
  unfolding on_key
  on_keys [] s = done s
  on_keys (key ∷ keys) s = on_key key s >>= on_keys keys
