-- ===== src/Log/Arrive.antt =====
-- What is logged arrives: kernel/src/logging.rs with kernel/src/serial.rs and the terminal.
use lemoncake.Base.{
  ℕ, Bool, true, false, ◌≡◌, refl, sym, ap, ◌∙◌, List, [], ◌∷◌, ◌++◌, Option, none, some, done,
}
use mathlib.Core.List.{append-nil, append_assoc}
use lemoncake.Tty.{Tty}
use lemoncake.Tty.Device.{Screen}
use lemoncake.Tty.Valid as Grid
use lemoncake.Tty.Valid.{Draws}
use lemoncake.Tty.Write.{write_str-Valid}
use lemoncake.Log.{Level, Location, Output, pieces_of, serial_print, tty_print, all_print, log}
use lemoncake.Log.Device.{Serial, Sends}

-- The text of the pieces.
abbrev pub joined : List (List ℕ) → List ℕ
joined [] = []
joined (piece ∷ pieces) = piece ++ joined pieces

module _ (screen : Screen) (draws : Draws screen) (serial : Serial) (sends : Sends serial) where
  open draws use {Good}
  open sends use {received}

  pub serial_print-Sends :
      (pieces : List (List ℕ)) (s : serial.State)
      → (s' : serial.State) × (serial_print serial pieces s ≡ done s')
        × (received s' ≡ received s ++ joined pieces)
  unfolding serial_print
  serial_print-Sends [] s = (s, refl, sym (append-nil (received s)))
  serial_print-Sends (piece ∷ pieces) s =
      let (s1, sent, got) = sends.write_str piece s in
      let (s2, rest, got') = serial_print-Sends pieces s1 in
      (
        s2,
        rw (serial_print, sent) rest,
        got' ∙ ap (λ l. l ++ joined pieces) got ∙ append_assoc (received s) piece (joined pieces),
      )

  tty_print-Valid :
      (pieces : List (List ℕ)) (t : Tty) (s : screen.State)
      → Grid.Valid t
      → Good s
      → (t' : Tty) × (s' : screen.State) × (tty_print screen pieces (t, s) ≡ some (done (t', s')))
        × Good s'
        × Grid.Valid t'
  unfolding tty_print
  tty_print-Valid [] t s v g = (t, s, refl, g, v)
  tty_print-Valid (piece ∷ pieces) t s v g =
      let (t1, s1, run, g1, v1, _, _) = write_str-Valid screen draws piece t s v g in
      let (t2, s2, rest, g2, v2) = tty_print-Valid pieces t1 s1 v1 g1 in
      (t2, s2, rw (tty_print, run) rest, g2, v2)

  -- The cursor of a terminal, if there is one, is in its grid.
  abbrev pub Ready : Option Tty → Type 0
  Ready none = Unit {0}
  Ready (some t) = Grid.Valid t

  -- No lock is held, the cursor of a terminal is in its grid, and the screen is good.
  abbrev pub Fit : Output screen serial → Type 0
  Fit o = (o.tty_held ≡ false) × (o.line_held ≡ false) × Ready o.tty × Good o.shown

  all_print-Arrives :
      (pieces : List (List ℕ)) (tty : Option Tty) (s : screen.State) (line : serial.State)
      (tty_held line_held : Bool)
      → tty_held ≡ false
      → line_held ≡ false
      → Ready tty
      → Good s
      → (o' : Output screen serial) × (all_print screen serial pieces (record {
        tty = tty;
        shown = s;
        line = line;
        tty_held = tty_held;
        line_held = line_held;
      })
          ≡ some (done o'))
        × (received o'.line ≡ received line ++ joined pieces)
        × Fit o'
  unfolding all_print
  all_print-Arrives pieces tty s line true lh ht hl ready g = cc
  all_print-Arrives pieces tty s line false true ht hl ready g = cc
  all_print-Arrives pieces none s line false false ht hl ready g =
      let (line', sent, got) = serial_print-Sends pieces line in
      (
        record { tty = none; shown = s; line = line'; tty_held = false; line_held = false },
        rw (all_print, sent) refl,
        got,
        (refl, refl, tt, g),
      )
  all_print-Arrives pieces (some t) s line false false ht hl ready g =
      let (line', sent, got) = serial_print-Sends pieces line in
      let (t', s', run, g', v) = tty_print-Valid pieces t s ready g in
      (
        record { tty = some t'; shown = s'; line = line'; tty_held = false; line_held = false },
        rw (all_print, sent, run) refl,
        got,
        (refl, refl, v, g'),
      )

  -- On a port that sends every text and a screen in a good state, with no lock held, and with no
  -- terminal or with one whose cursor is in its grid: each of the log macros ends within its fuel and
  -- does not panic, appends exactly the text of its pieces to what the serial line received, and
  -- leaves the screen good and the cursor, if there is a terminal, in the grid.
  pub log-Arrives :
      (faces : Bool) (level : Level) (message : List (List ℕ)) (at : Location)
      (o : Output screen serial)
      → Fit o
      → (o' : Output screen serial) × (log screen serial faces level message at o ≡ some (done o'))
        × (received o'.line ≡ received o.line ++ joined (pieces_of faces level message at))
        × Fit o'
  unfolding log
  log-Arrives faces level message at o (ht, hl, ready, g) =
      all_print-Arrives (pieces_of faces level message at) o.tty o.shown o.line o.tty_held
        o.line_held ht hl ready g
