-- ===== src/Display/Faces.antt =====
-- The faces of kernel/src/display.rs on a valid frame buffer.
use lemoncake.Base.{
  ℕ, ◌≡◌, inl, inr, refl, arith, List, [], ◌∷◌, ◌==◌, Bool-cases, done, if◌then◌else◌,
}
use lemoncake.Display.{
  Framebuffer, Rgb, Rgba, put_pixels, draw_smiley, draw_sad_face, smiley_points, sad_points,
}
use lemoncake.Display.Valid.{Valid}
use lemoncake.Display.Bitmap.{InRect, Within, put_pixel-Within}

module _ (fb : Framebuffer) (valid : Valid fb) (x y : ℕ) where
  -- The points lie in the seven columns and six rows of a face.
  abbrev AllIn : List (ℕ × ℕ) → Type 0
  AllIn [] = Unit {0}
  AllIn ((px, py) ∷ rest) = InRect x y 7 6 px py × AllIn rest

  abbrev Drawn : Framebuffer → Type 0
  Drawn f = Within fb x y 7 6 f

  put_pixels-Within :
      (points : List (ℕ × ℕ)) (color : Rgb) (f : Framebuffer)
      → AllIn points
      → Drawn f
      → (f' : Framebuffer) × (put_pixels points color f ≡ done f') × Drawn f'
  unfolding put_pixels
  put_pixels-Within [] color f inside w = (f, refl, w)
  put_pixels-Within ((px, py) ∷ rest) color f inside w =
      let (f1, run1, w1) = put_pixel-Within fb valid x y 7 6 px py color f inside.0 w in
      let (f2, run2, w2) = put_pixels-Within rest color f1 inside.1 w1 in (f2, rw run1 run2, w2)

  untouched : Drawn fb
  untouched = record { out = fb.buffer; state = refl; size = refl; keeps = λ x' y' i o k l. refl }

  coloured :
      (color : Rgba) (points : List (ℕ × ℕ))
      → AllIn points
      → (f : Framebuffer) × ((if color.3 == 0
            then done fb
            else put_pixels points (color.0, color.1, color.2) fb)
          ≡ done f)
        × Drawn f
  coloured (r, g, b, a) points inside = elim (Bool-cases (a == 0)) [
    | inl clear ↦ (fb, rw clear refl, untouched)
    | inr opaque ↦
        let (f, run, w) = put_pixels-Within points (r, g, b) fb inside untouched in
        (f, rw opaque run, w)
  ]

  -- A smiley does not panic and changes no pixel outside its seven columns and six rows.
  pub draw_smiley-Within :
      (color : Rgba) → (f : Framebuffer) × (draw_smiley x y color fb ≡ done f) × Drawn f
  unfolding draw_smiley
  draw_smiley-Within (r, g, b, a) = coloured (r, g, b, a) (smiley_points x y) (omega arith)

  -- A sad face does not panic and changes no pixel outside its seven columns and six rows.
  pub draw_sad_face-Within :
      (color : Rgba) → (f : Framebuffer) × (draw_sad_face x y color fb ≡ done f) × Drawn f
  unfolding draw_sad_face
  draw_sad_face-Within (r, g, b, a) = coloured (r, g, b, a) (sad_points x y) (omega arith)
