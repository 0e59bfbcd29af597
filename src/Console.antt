-- ===== src/Console.antt =====
-- The screen that the terminal of kernel/src/display.rs draws on: `draw_char_psf` of
-- kernel/src/font.rs with its static `FONT_HEIGHT`, over the frame buffer behind `FRAMEBUFFER`.
pub mod Print
mod Tests
use lemoncake.Base.{ℕ, Bool, true, false, List, Option, none, some, Run, done, ◌>>=◌}
use lemoncake.Display.{Framebuffer, Rgb, Rgba, clear_screen, draw_smiley, draw_sad_face}
use lemoncake.Font.{parse_psf, draw_char_psf}
use lemoncake.Tty.Device.{Screen}

-- `FRAMEBUFFER` and `FONT_HEIGHT`
pub record Video : Type 0 where
  pub framebuffer : Option Framebuffer
  pub font_height : ℕ

-- `parse_psf` sets `FONT_HEIGHT` where it finds a font.
abbrev pub height_after : List ℕ → ℕ → ℕ
height_after font_data old = elim (parse_psf font_data) [ none ↦ old | some font ↦ font.height ]

abbrev pub with_framebuffer : Video → Run (Option Framebuffer) → Run Video
with_framebuffer v r = r >>= λ fb. done (record v { framebuffer = fb })

-- A method of the frame buffer, where there is one.
abbrev pub on_framebuffer : (Framebuffer → Run Framebuffer) → Video → Run Video
on_framebuffer f v = elim v.framebuffer [
  | none ↦ done v
  | some fb ↦ f fb >>= λ fb'. done (record v { framebuffer = some fb' })
]

unfoldable pub draw_char : List ℕ → ℕ → ℕ → ℕ → Rgba → Video → Run Video
draw_char font_data x y c color v =
    with_framebuffer (record v { font_height = height_after font_data v.font_height })
      (draw_char_psf font_data x y c color v.framebuffer)

abbrev pub is_some : Option Framebuffer → Bool
is_some none = false
is_some (some fb) = true

abbrev pub console : List ℕ → Screen
console font_data = record {
  State = Video;
  font_height = λ v. v.font_height;
  present = λ v. is_some v.framebuffer;
  draw_char = draw_char font_data;
  clear_screen = λ color. on_framebuffer (clear_screen color);
  draw_smiley = λ x y color. on_framebuffer (draw_smiley x y color);
  draw_sad_face = λ x y color. on_framebuffer (draw_sad_face x y color);
}
