-- ===== src/Tty/Faces.antt =====
-- `yay` and `sad` of kernel/src/display.rs.
use lemoncake.Base.{
  ℕ, ◌+◌, ◌*◌, ◌/◌, ◌≡◌, inl, inr, false, refl, arith, leb, Bool-cases, done, Option,
}
use lemoncake.Display.{Rgba}
use lemoncake.Tty.{Tty, advance, or_fg, yay, sad}
use lemoncake.Tty.Device.{Screen}
use lemoncake.Tty.Valid.{Valid, Draws}

-- The faces keep a good screen good.
pub record Faces (screen : Screen) (draws : Draws screen) : Type 0 where
  pub draw_smiley :
      (x y : ℕ) (color : Rgba) (s : screen.State)
      → draws.Good s
      → (s' : screen.State) × (screen.draw_smiley x y color s ≡ done s') × draws.Good s'
  pub draw_sad_face :
      (x y : ℕ) (color : Rgba) (s : screen.State)
      → draws.Good s
      → (s' : screen.State) × (screen.draw_sad_face x y color s ≡ done s') × draws.Good s'

module _ (screen : Screen) (draws : Draws screen) (faces : Faces screen draws) where
  open screen use {State, font_height, present}
  open draws use {Good}

  advance-Valid : (t : Tty) → Valid t → Valid (advance screen t)
  advance-Valid t v =
      let stays : leb t.height t.cursor_y ≡ false = ground arith in
      elim (Bool-cases (leb t.width (t.cursor_x + 1))) [
        | inr room ↦
            rw (room, stays)
              (record {
                sized = record { wide = v.sized.wide; high = v.sized.high; fits = v.sized.fits };
                in_row = ground arith;
                in_column = v.in_column;
              })
        | inl full ↦ elim (Bool-cases (leb t.height (t.cursor_y + 1))) [
          | inl last ↦
              rw (full, last)
                (record {
                  sized = record { wide = v.sized.wide; high = v.sized.high; fits = v.sized.fits };
                  in_row = v.sized.wide;
                  in_column = v.sized.high;
                })
          | inr more ↦
              rw (full, more)
                (record {
                  sized = record { wide = v.sized.wide; high = v.sized.high; fits = v.sized.fits };
                  in_row = v.sized.wide;
                  in_column = ground arith;
                })
        ]
      ]

  pub sad-Valid :
      (color : Option Rgba) (t : Tty) (s : State)
      → Valid t
      → Good s
      → (t' : Tty) × (s' : State) × (sad screen color (t, s) ≡ done (t', s')) × Good s' × Valid t'
  unfolding sad
  sad-Valid color t s v g = elim (Bool-cases (present s)) [
    | inl on ↦
        let (s', run, g') =
          faces.draw_sad_face (t.cursor_x * 8) (t.cursor_y * font_height s + font_height s / 4)
            (or_fg screen color t) s g in
        (advance screen t, s', rw (on, run) refl, g', advance-Valid t v)
    | inr off ↦ (t, s, rw off refl, g, v)
  ]

  pub yay-Valid :
      (color : Option Rgba) (t : Tty) (s : State)
      → Valid t
      → Good s
      → (t' : Tty) × (s' : State) × (yay screen color (t, s) ≡ done (t', s')) × Good s' × Valid t'
  unfolding yay
  yay-Valid color t s v g = elim (Bool-cases (present s)) [
    | inl on ↦
        let (s', run, g') =
          faces.draw_smiley (t.cursor_x * 8) (t.cursor_y * font_height s + font_height s / 4)
            (or_fg screen color t) s g in
        (advance screen t, s', rw (on, run) refl, g', advance-Valid t v)
    | inr off ↦ (t, s, rw off refl, g, v)
  ]
