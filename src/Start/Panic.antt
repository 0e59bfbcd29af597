-- ===== src/Start/Panic.antt =====
-- The panic handler of kernel/src/main.rs and its macros `sad!` and `yay!`, over the outputs of
-- kernel/src/logging.rs.
use lemoncake.Base.{
  ℕ, Bool, true, false, if◌then◌else◌, List, [], ◌∷◌, ◌++◌, Option, none, some, Run, done, panic,
  ◌>>=◌, codes, ◌≡◌, refl, sym, ap, ◌∙◌, Bool-cases, inl, inr,
}
use mathlib.Core.List.{append-nil}
use lemoncake.Display.{Rgba}
use lemoncake.Tty.{Tty}
use lemoncake.Tty
use lemoncake.Tty.Device.{Screen}
use lemoncake.Tty.Valid.{Draws}
use lemoncake.Tty.Faces.{Faces, sad-Valid}
use lemoncake.Log.{Level, Location, Output, pieces_of, line_print, all_print, log}
use lemoncake.Log.Device.{Serial, Sends}
use lemoncake.Log.Arrive.{joined, Ready, Fit, log-Arrives, serial_print-Sends}

-- `PanicInfo`
pub record PanicInfo : Type 0 where
  pub message : List (List ℕ)
  pub location : Option Location

-- The pieces of the handler's message; 27 is `\x1b` and 10 is `\n`.
abbrev pub report : List (List ℕ) → Location → List (List ℕ)
report message at =
    ((10 ∷ codes "Uh-oh! The Lemoncake kernel needed to panic."
        ++ 10 ∷ codes "Here's what happened:"
        ++ 10 ∷ codes "Panic Message: "
        ++ 27 ∷ codes "[31m")
      ∷ [])
    ++ message
    ++ (27 ∷ codes "[0m" ++ 10 ∷ codes "Location: " ++ 27 ∷ codes "[33m")
      ∷ at.file
      ∷ codes "@L"
      ∷ at.line
      ∷ codes ":"
      ∷ at.column
      ∷ (27 ∷ codes "[0m")
      ∷ []

-- `RED` and `GREEN` of kernel/src/display.rs
abbrev pub red : Rgba
red = (243, 139, 168, 255)

abbrev pub green : Rgba
green = (166, 227, 161, 255)

-- The character that `serial-faces` sends.
abbrev pub frown : List ℕ
frown = 0x2639 ∷ []

module _ (screen : Screen) (serial : Serial) where
  -- A drawing method of the terminal, if there is one; a held lock is waited for without an end.
  abbrev pub on_tty :
      (Tty × screen.State → Run (Tty × screen.State))
      → Output screen serial
      → Option (Run (Output screen serial))
  on_tty draw o = if o.tty_held then none else elim o.tty [
    | none ↦ some (done o)
    | some t ↦
        some (draw (t, o.shown) >>= λ (t', s'). done (record o { tty = some t'; shown = s' }))
  ]

  -- `sad!`, which is also the end of the panic handler
  pub sad : Output screen serial → Option (Run (Output screen serial))
  sad = on_tty (Tty.sad screen (some red))

  -- `yay!`
  pub yay : Output screen serial → Option (Run (Output screen serial))
  yay = on_tty (Tty.yay screen (some green))

  -- `clear!`
  pub clear : Output screen serial → Option (Run (Output screen serial))
  clear = on_tty (Tty.clear_tty screen)

  -- What follows if the part before it comes to its end.
  abbrev pub after :
      (Output screen serial → Option (Run (Output screen serial)))
      → Option (Run (Output screen serial))
      → Option (Run (Output screen serial))
  after rest none = none
  after rest (some panic) = some panic
  after rest (some (done o)) = rest o

  -- What the handler does behind its message, with the feature `serial-faces` or without.
  abbrev pub frowning : Bool → Output screen serial → Option (Run (Output screen serial))
  frowning true o = after sad (line_print screen serial (frown ∷ []) o)
  frowning false o = sad o

  -- The handler up to its endless loop; `here` is the place of its own call of `error!`, and a panic
  -- in it is the `unwrap` of no location. With a lock held it does not come to its end: `none`.
  unfoldable pub panic_handler :
      Bool
      → Bool
      → PanicInfo
      → Location
      → Output screen serial
      → Option (Run (Output screen serial))
  unfolding sad
  panic_handler faces serial_faces info here o = elim info.location [
    | none ↦ some panic
    | some at ↦
        after (frowning serial_faces)
          (log screen serial faces Level.error (report info.message at) here o)
  ]

-- What the serial line gets behind the message.
abbrev pub face_sent : Bool → List ℕ
face_sent true = frown
face_sent false = []

module _ (screen : Screen) (draws : Draws screen) (faces : Faces screen draws) (serial : Serial)
    (sends : Sends serial) where
  open sends use {received}

  sad_lem :
      (o : Output screen serial)
      → Fit screen draws serial sends o
      → (o' : Output screen serial) × (sad screen serial o ≡ some (done o'))
        × (o'.line ≡ o.line)
        × Fit screen draws serial sends o'
  unfolding sad
  sad_lem o (ht, hl, ready, good) = by_tty o.tty o.shown o.tty_held ht ready good
    where
      by_tty :
          (tty : Option Tty) (s : screen.State) (held : Bool)
          → held ≡ false
          → Ready screen draws serial sends tty
          → draws.Good s
          → (o' : Output screen serial) × (on_tty screen serial
                (Tty.sad screen (some red))
                (record o { tty = tty; shown = s; tty_held = held })
              ≡ some (done o'))
            × (o'.line ≡ o.line)
            × Fit screen draws serial sends o'
      by_tty tty s true h ready g = cc
      by_tty none s false h ready g =
          (record o { tty = none; shown = s; tty_held = false }, refl, refl, (refl, hl, tt, g))
      by_tty (some t) s false h ready g =
          let (t', s', run, g', v) = sad-Valid screen draws faces (some red) t s ready g in
          (
            record o { tty = some t'; shown = s'; tty_held = false },
            rw run refl,
            refl,
            (refl, hl, v, g'),
          )

  line_print-Sends :
      (pieces : List (List ℕ)) (o : Output screen serial) (held : Bool)
      → held ≡ false
      → (line : serial.State) × (line_print screen serial pieces (record o { line_held = held })
          ≡ some (done (record o { line = line; line_held = held })))
        × (received line ≡ received o.line ++ joined pieces)
  unfolding line_print
  line_print-Sends pieces o true h = cc
  line_print-Sends pieces o false h =
      let (line, sent, got) = serial_print-Sends screen draws serial sends pieces o.line in
      (line, rw sent refl, got)

  frowning_lem :
      (serial_faces : Bool) (o : Output screen serial)
      → Fit screen draws serial sends o
      → (o' : Output screen serial) × (frowning screen serial serial_faces o ≡ some (done o'))
        × (received o'.line ≡ received o.line ++ face_sent serial_faces)
        × Fit screen draws serial sends o'
  frowning_lem false o fit =
      let (o', run, same, fit') = sad_lem o fit in
      (o', run, ap received same ∙ sym (append-nil (received o.line)), fit')
  frowning_lem true o (ht, hl, ready, g) =
      let (line, sent, got) = line_print-Sends (frown ∷ []) o o.line_held hl in
      let (o', run, same, fit') = sad_lem (record o { line = line }) (ht, hl, ready, g) in
      (o', rw sent run, ap received same ∙ got, fit')

  -- A panic while the lock of the terminal is held, for instance one in the terminal itself: on a
  -- port that sends every text, the handler never comes to its end.
  panic_handler-held :
      (with_faces serial_faces : Bool) (message : List (List ℕ)) (at here : Location)
      (o : Output screen serial)
      → o.tty_held ≡ true
      → panic_handler screen serial with_faces serial_faces
          (record { message = message; location = some at })
          here
          o
        ≡ none
  unfolding panic_handler log all_print
  panic_handler-held with_faces serial_faces message at here o held =
      elim (Bool-cases o.line_held) [
        | inl e ↦ rw (panic_handler, log, all_print, e) refl
        | inr e ↦
            let (line, sent, _) =
              serial_print-Sends screen draws serial sends
                (pieces_of with_faces Level.error (report message at) here) o.line in
            rw (panic_handler, log, all_print, e, sent, held) refl
      ]

  -- On a port that sends every text and a screen in a good state that can draw the face, with no lock
  -- held, and with no terminal or with one whose cursor is in its grid: behind a panic whose place is
  -- known, the handler comes to its endless loop within its fuel and without a panic of its own; the
  -- serial line has received the text of the message and then, with `serial-faces`, the frown; the
  -- screen is good and the cursor, if there is a terminal, in the grid.
  pub panic_handler-Reports :
      (with_faces serial_faces : Bool) (message : List (List ℕ)) (at here : Location)
      (o : Output screen serial)
      → Fit screen draws serial sends o
      → (o' : Output screen serial) × (panic_handler screen serial with_faces serial_faces
            (record { message = message; location = some at })
            here
            o
          ≡ some (done o'))
        × (received o'.line
            ≡ (received o.line
                ++ joined (pieces_of with_faces Level.error (report message at) here))
              ++ face_sent serial_faces)
        × Fit screen draws serial sends o'
  unfolding panic_handler
  panic_handler-Reports with_faces serial_faces message at here o fit =
      let (o1, run1, got1, fit1) =
        log-Arrives screen draws serial sends with_faces Level.error (report message at) here o
          fit in
      let (o2, run2, got2, fit2) = frowning_lem serial_faces o1 fit1 in
      (o2, rw (run1, run2) refl, got2 ∙ ap (λ l. l ++ face_sent serial_faces) got1, fit2)
