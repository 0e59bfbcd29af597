-- ===== src/Font/Tests.antt =====
-- A font of the first PSF format with glyphs of one byte, for kernel/src/font.rs.
use lemoncake.Base.{ℕ, ◌≡◌, refl, arith, List, ◌∷◌, some, done, replicate}
use lemoncake.Display.{Framebuffer, PixelFormat}
use lemoncake.Display.Valid.{Valid}
use lemoncake.Display.Bitmap.{Within}
use lemoncake.Font.Draw.{draw_char_psf-Within}
use lemoncake.Font.{Font, parse_psf, parse_psf1, parse_psf2, little_endian, draw_char_psf}

abbrev tiny_file : List ℕ
tiny_file = 0x36 ∷ 0x04 ∷ 0 ∷ 1 ∷ replicate 256 0x81

abbrev tiny : Font
tiny = record {
  glyphs = replicate 256 0x81;
  num_glyphs = 256;
  bytes_per_glyph = 1;
  height = 1;
  width = 8;
}

tiny_parses : parse_psf tiny_file ≡ some tiny
unfolding parse_psf parse_psf1 parse_psf2 little_endian
tiny_parses = refl

abbrev screen : Framebuffer
screen = record {
  width = 10;
  height = 2;
  stride = 10;
  bytes_per_pixel = 1;
  format = PixelFormat.gray;
  buffer = replicate 20 0;
}

screen-Valid : Valid screen
screen-Valid = record { wide = omega arith; deep = omega arith; fits = omega arith }

draw_char_psf-Within_example :
    (fb' : Framebuffer) × (draw_char_psf tiny_file 1 1 65 (255, 255, 255, 255) (some screen)
      ≡ done (some fb'))
    × Within screen 1 1 8 1 fb'
draw_char_psf-Within_example =
    draw_char_psf-Within tiny_file tiny 1 1 65 (255, 255, 255, 255) screen tiny_parses screen-Valid
