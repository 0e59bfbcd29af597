-- ===== src/CommandLine/Commands.antt =====
-- The registry of kernel/src/commandline.rs and the functions of its commands.
use lemoncake.Base.{
  ℕ, zero, suc, ◌||◌, if◌then◌else◌, Bool, false, List, [], ◌∷◌, ◌++◌, Option, none, some, Run,
  done, panic, ◌>>=◌, length, map, bytes_eq, codes,
}
use Prim.Native.String.{String}
use lemoncake.CommandLine.Terminal.{Console, Output, ℤ, pos}
use lemoncake.CommandLine.Words.{to_lowercase, as_bytes}
use lemoncake.Ustar.{File, next, read_file}

-- The functions that a command may have.
pub data Func : Type 0 where
  license : Func
  credits : Func
  smiley : Func
  sad_face : Func
  clear_screen : Func
  whoami : Func
  panic_now : Func
  shutdown : Func
  res : Func
  ls : Func
  cat : Func
  help : Func

pub record Command : Type 0 where
  pub name : List ℕ
  pub aliases : List (List ℕ)
  pub help_message : List ℕ
  pub func : Func

-- `CommandRegistry`
abbrev pub Registry : Type 0
Registry = List Command

unfoldable pub push : Command → Registry → Registry
push cmd registry = registry ++ cmd ∷ []

-- the registry without its last command, and that command
unfoldable pub pop_last : Registry → Registry × Option Command
pop_last [] = ([], none)
pop_last (cmd ∷ []) = ([], some cmd)
pop_last (cmd ∷ next_cmd ∷ rest) = let (r, last) = pop_last (next_cmd ∷ rest) in (cmd ∷ r, last)

abbrev pub contains : List ℕ → List (List ℕ) → Bool
contains name [] = false
contains name (word ∷ words) = bytes_eq word name || contains name words

abbrev pub answers : List ℕ → Command → Bool
answers name cmd = bytes_eq cmd.name name || contains name cmd.aliases

unfoldable pub search : List ℕ → Registry → Option Command
search name [] = none
search name (cmd ∷ rest) =
    let later = search name rest in if answers name cmd then some cmd else later

-- One line of `get_help` for each command.
abbrev pub help_lines : Registry → List ℕ
help_lines [] = []
help_lines (cmd ∷ rest) =
    cmd.name ++ codes " | " ++ cmd.help_message ++ codes "\n" ++ help_lines rest

unfoldable pub get_help : Registry → List ℕ
get_help registry = codes "=| Help |===============\n" ++ help_lines registry

-- The files that `ls` lists: it stops behind 1001 of them.
unfoldable pub list_files : ℕ → List ℕ → ℕ → Run (List (List ℕ × ℕ))
list_files zero bytes ptr = done []
list_files (suc n) bytes ptr =
    next bytes ptr >>= λ (found, ptr'). listed found (list_files n bytes ptr')
  where
    listed : Option File → Run (List (List ℕ × ℕ)) → Run (List (List ℕ × ℕ))
    listed none rest = done []
    listed (some f) rest = rest >>= λ files. done ((f.filename, f.size) ∷ files)

module _ (console : Console) where
  open console use {World, print, yay, sad, clear, framebuffer, fs, write_port}

  abbrev pub answer : ℕ → World → Run (ℤ × World)
  answer code w = done (pos code, w)

  abbrev pub power_off : List ℕ → World → World
  power_off vm w =
      if bytes_eq vm (codes "qemu")
      then write_port 0x604 0x2000 w
      else if bytes_eq vm (codes "bochs") || bytes_eq vm (codes "old_qemu")
      then write_port 0xb004 0x2000 w
      else if bytes_eq vm (codes "vbox") || bytes_eq vm (codes "virtualbox")
      then write_port 0x4004 0x3400 w
      else print (Output.invalid_type vm) w

  unfoldable pub shutdown_vm : List (List ℕ) → World → Run (ℤ × World)
  unfolding to_lowercase
  shutdown_vm (vm ∷ []) w = answer 0 (power_off (to_lowercase vm) w)
  shutdown_vm args w = answer 1 (print Output.shutdown_usage w)

  unfoldable pub resolution : World → Run (ℤ × World)
  resolution w = elim (framebuffer w) [
    | some (width, height) ↦ answer 0 (print (Output.resolution width height) w)
    | none ↦ answer 1 (print Output.no_framebuffer w)
  ]

  abbrev pub print_files : List (List ℕ × ℕ) → World → World
  print_files [] w = w
  print_files ((name, size) ∷ rest) w = print_files rest (print (Output.file_line name size) w)

  unfoldable pub list_archive : World → Run (ℤ × World)
  unfolding list_files
  list_archive w = elim (fs w) [
    | none ↦ answer 1 (print Output.no_filesystem w)
    | some bytes ↦ list_files 1001 bytes 0 >>= λ files.
        answer 0 (print_files files (print (Output.file_count (length files)) w))
  ]

  -- What `read_file` found is printed. It always comes to an end, so there is no case without fuel.
  abbrev pub show_file : List ℕ → World → Option (Run (Option File)) → Run (ℤ × World)
  show_file name w none = panic
  show_file name w (some result) = result >>= λ found. elim found [
    | some f ↦ answer 0 (print (Output.text f.content) w)
    | none ↦ answer 1 (print (Output.not_read name) w)
  ]

  abbrev pub print_file : List ℕ → Option (List ℕ) → World → Run (ℤ × World)
  print_file name none w = answer 1 (print Output.no_filesystem w)
  print_file name (some bytes) w = show_file name w (read_file bytes (as_bytes name))

  unfoldable pub show : List (List ℕ) → World → Run (ℤ × World)
  unfolding as_bytes
  show (name ∷ []) w = print_file name (fs w) w
  show args w = answer 1 (print Output.cat_usage w)

  -- The call of a command's function.
  unfoldable pub run_command : Func → Registry → List (List ℕ) → World → Run (ℤ × World)
  unfolding get_help shutdown_vm resolution list_archive show
  run_command Func.license registry args w = answer 0 (print Output.license_text w)
  run_command Func.credits registry args w = answer 0 (print Output.credits_text w)
  run_command Func.smiley registry args w = answer 0 (print Output.newline (yay w))
  run_command Func.sad_face registry args w = answer 0 (print Output.newline (sad w))
  run_command Func.clear_screen registry args w = answer 0 (clear w)
  run_command Func.whoami registry args w = answer 0 (print Output.whoami_text w)
  run_command Func.panic_now registry args w = panic
  run_command Func.shutdown registry args w = shutdown_vm args w
  run_command Func.res registry args w = resolution w
  run_command Func.ls registry args w = list_archive w
  run_command Func.cat registry args w = show args w
  run_command Func.help registry args w = answer 0 (print (Output.text (get_help registry)) w)

abbrev command : String → List String → String → Func → Command
command name aliases help_message func = record {
  name = codes name;
  aliases = map codes aliases;
  help_message = codes help_message;
  func = func;
}

-- `init_command_registry`
unfoldable pub registered : Registry
registered =
    command "license" ("lic" ∷ "l" ∷ []) "Displays the Lemoncake license and copyright information."
      Func.license
    ∷ command "credits" ("cred" ∷ "c" ∷ []) "Displays credits to the contributer(s) of Lemoncake."
        Func.credits
    ∷ command "smiley" ("yay" ∷ ":D" ∷ ":)" ∷ []) "Prints a smiley face :)" Func.smiley
    ∷ command "sad" ("nay" ∷ "D:" ∷ ":(" ∷ []) "Prints a sad face :(" Func.sad_face
    ∷ command "clear" ("claer" ∷ "clera" ∷ "cear" ∷ []) "Clears the TTY." Func.clear_screen
    ∷ command "whoami" [] "Tells you who you are." Func.whoami
    ∷ command "panic" [] "Panics the system." Func.panic_now
    ∷ command "shutdown" ("poweroff" ∷ []) "Powers off the VM. (does not work on real hw!)"
        Func.shutdown
    ∷ command "res" ("resolution" ∷ []) "Displays the current resolution." Func.res
    ∷ command "ls" ("listdir" ∷ []) "Lists all files in filesystem." Func.ls
    ∷ command "cat" ("readfile" ∷ []) "Reads data from a file." Func.cat
    ∷ command "help" ("hlep" ∷ "h" ∷ "?" ∷ []) "Displays this message." Func.help
    ∷ []
