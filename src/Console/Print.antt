-- ===== src/Console/Print.antt =====
-- Text on the screen: the terminal of kernel/src/display.rs with the font and the frame buffer.
use lemoncake.Base.{ℕ, ◌≡◌, refl, ◌∙◌, arith, inl, inr, Option-cases}
use lemoncake.Base.{List, length, some, Run, done}
use lemoncake.Display.{Framebuffer, Rgba, clear_screen, draw_smiley, draw_sad_face}
use lemoncake.Display.Bitmap.{Within}
use lemoncake.Display.Faces.{draw_smiley-Within, draw_sad_face-Within}
use lemoncake.Tty.Faces.{Faces}
use lemoncake.Display.Valid.{Valid}
use lemoncake.Display.Clear.{IsColour, clear_screen-Shows}
use lemoncake.Font.{parse_psf, draw_char_psf}
use lemoncake.Font.Draw.{draw_char_psf-Within}
use lemoncake.Tty.{Tty, background, write_str}
use lemoncake.Tty.Valid as Grid
use lemoncake.Tty.Valid.{Draws}
use lemoncake.Tty.Write.{write_str-Valid}
use lemoncake.Console.{Video, draw_char, console, height_after, on_framebuffer}

-- The geometry is that of `fb`, and the buffer is as long.
abbrev pub Shown : Framebuffer → Video → Type 0
Shown fb v =
    (out : List ℕ) × (v.framebuffer ≡ some (record fb { buffer = out }))
    × (length out ≡ length fb.buffer)

buffer-Valid :
    (fb : Framebuffer) (out : List ℕ)
    → Valid fb
    → length out ≡ length fb.buffer
    → Valid (record fb { buffer = out })
buffer-Valid fb out v e = record { wide = v.wide; deep = v.deep; fits = omega (arith, v.fits, e) }

module _ (file : List ℕ) (fb : Framebuffer) (valid : Valid fb) where
  draw_char_psf-Shown :
      (x y c : ℕ) (color : Rgba) (out : List ℕ)
      → length out ≡ length fb.buffer
      → (out' : List ℕ) × (draw_char_psf file x y c color (some (record fb { buffer = out }))
          ≡ done (some (record fb { buffer = out' })))
        × (length out' ≡ length fb.buffer)
  unfolding draw_char_psf
  draw_char_psf-Shown x y c color out size = elim (Option-cases (parse_psf file)) [
    | inl none_there ↦ (out, rw (draw_char_psf, none_there) refl, size)
    | inr (font, at) ↦
        let (fb', run, w) =
          draw_char_psf-Within file font x y c color (record fb { buffer = out }) at
            (buffer-Valid fb out valid size) in
        (w.out, run ∙ rw w.state refl, w.size ∙ size)
  ]

  pub draw_char-Shown :
      (x y c : ℕ) (color : Rgba) (v : Video)
      → Shown fb v
      → (v' : Video) × (draw_char file x y c color v ≡ done v') × Shown fb v'
  unfolding draw_char
  draw_char-Shown x y c color v (out, at, size) =
      let (out', run, size') = draw_char_psf-Shown x y c color out size in
      (
        record {
          framebuffer = some (record fb { buffer = out' });
          font_height = height_after file v.font_height;
        },
        rw (at, run) refl,
        (out', refl, size'),
      )

  pub face-Shown :
      (draw : Framebuffer → Run Framebuffer) (x y : ℕ)
      → ((f : Framebuffer)
          → Valid f
          → (f' : Framebuffer) × (draw f ≡ done f') × Within f x y 7 6 f')
      → (v : Video) → Shown fb v
      → (v' : Video) × (on_framebuffer draw v ≡ done v') × Shown fb v'
  face-Shown draw x y law v (out, at, size) =
      let (f', run, w) = law (record fb { buffer = out }) (buffer-Valid fb out valid size) in
      (
        record v { framebuffer = some f' },
        rw (at, run) refl,
        (w.out, rw w.state refl, w.size ∙ size),
      )

  module _ (colour : IsColour fb.format) where
    pub clear_screen-Shown :
        (v : Video)
        → Shown fb v
        → (v' : Video) × (on_framebuffer (clear_screen background) v ≡ done v') × Shown fb v'
    clear_screen-Shown v (out, at, size) =
        let (out', run, size', _) =
          clear_screen-Shows (record fb { buffer = out }) background
            (buffer-Valid fb out valid size) colour in
        (
          record v { framebuffer = some (record fb { buffer = out' }) },
          rw (at, run) refl,
          (out', refl, size' ∙ size),
        )

    -- The laws of the screen that the terminal asks for.
    abbrev pub console-Draws : Draws (console file)
    console-Draws = record {
      Good = Shown fb;
      draw_char = draw_char-Shown;
      clear_screen = clear_screen-Shown;
    }

    -- On a valid colour frame buffer, with any bytes as the font file, and a terminal whose grid fits
    -- its buffer and has the cursor in it: printing any text ends within its fuel, does not panic in the
    -- terminal, the font or the frame buffer, keeps the frame buffer's geometry and length and the
    -- terminal's size, and leaves the cursor in the grid.
    pub write_str-Shown :
        (text : List ℕ) (t : Tty) (v : Video)
        → Grid.Valid t
        → Shown fb v
        → (t' : Tty) × (v' : Video) × (write_str (console file) text (t, v) ≡ some (done (t', v')))
          × Shown fb v'
          × Grid.Valid t'
          × (t'.width ≡ t.width)
          × (t'.height ≡ t.height)
    write_str-Shown text t v sized shown =
        write_str-Valid (console file) console-Draws text t v sized shown

    -- The laws of the faces.
    abbrev pub console-Faces : Faces (console file) console-Draws
    console-Faces = record {
      draw_smiley = λ x y color.
          face-Shown (draw_smiley x y color) x y (λ f ok. draw_smiley-Within f ok x y color);
      draw_sad_face = λ x y color.
          face-Shown (draw_sad_face x y color) x y (λ f ok. draw_sad_face-Within f ok x y color);
    }
