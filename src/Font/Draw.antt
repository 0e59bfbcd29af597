-- ===== src/Font/Draw.antt =====
-- Which pixels `draw_char_psf` of kernel/src/font.rs may change.
use lemoncake.Base.{
  ℕ, ◌*◌, ◌≤◌, ◌≡◌, inl, inr, refl, arith, ◌==◌, ◌||◌, ltb, Bool-cases, Option-cases,
}
use lemoncake.Base.{List, length, some, done, cut, slice_done}
use lemoncake.Display.{Framebuffer, Rgba}
use lemoncake.Display.Valid.{Valid}
use lemoncake.Display.Bitmap.{Within, draw_bitmap-Within}
use lemoncake.Font.{Font, parse_psf, glyph_of, draw_char_psf}
use lemoncake.Font.Glyph.{glyph_bitmap-done}

-- A valid frame buffer and a font file with a font: drawing any character anywhere does not panic, and
-- changes no pixel outside of the rectangle of the font's size at the given place.
pub draw_char_psf-Within :
    (file : List ℕ) (font : Font) (x y code : ℕ) (color : Rgba) (fb : Framebuffer)
    → parse_psf file ≡ some font
    → Valid fb
    → (fb' : Framebuffer) × (draw_char_psf file x y code color (some fb) ≡ done (some fb'))
      × Within fb x y font.width font.height fb'
unfolding draw_char_psf
draw_char_psf-Within file font x y code color fb e valid =
    elim (Bool-cases (font.width * font.height == 0 || ltb 1024 (font.width * font.height))) [
      | inl none_drawn ↦ (fb, rw (draw_char_psf, e, none_drawn) refl, same)
      | inr drawn ↦ elim (Option-cases (glyph_of font code)) [
        | inl no_glyph ↦ (fb, rw (draw_char_psf, e, drawn, no_glyph) refl, same)
        | inr (glyph, at) ↦
            let small : font.width * font.height ≤ 1024 = ground arith in
            let (bitmap, filled, size) = glyph_bitmap-done font glyph color small in
            let fits : font.width * font.height ≤ length bitmap = omega (arith, small, size) in
            let visible = cut 0 (font.width * font.height) bitmap in
            let (fb', run, w) = draw_bitmap-Within fb visible font.width font.height x y valid in
            (
              fb',
              rw
                  (
                    draw_char_psf,
                    e,
                    drawn,
                    at,
                    filled,
                    slice_done 0 (font.width * font.height) bitmap (omega arith) fits,
                    run,
                  )
                  refl,
              w,
            )
      ]
    ]
  where
    same : Within fb x y font.width font.height fb
    same = record { out = fb.buffer; state = refl; size = refl; keeps = λ x' y' i o k l. refl }
