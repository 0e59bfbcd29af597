-- ===== src/Tty/Device.antt =====
-- What the terminal of kernel/src/display.rs needs of the screen: `draw_char_psf` of
-- kernel/src/font.rs and the frame buffer behind the `FRAMEBUFFER` lock.
use lemoncake.Base.{ℕ, Bool, Run}
use lemoncake.Display.{Rgb, Rgba}

pub record Screen : Type 1 where
  pub State : Type 0
  -- `FONT_HEIGHT`
  pub font_height : State → ℕ
  -- whether `FRAMEBUFFER` holds a frame buffer
  pub present : State → Bool
  pub draw_char : ℕ → ℕ → ℕ → Rgba → State → Run State
  pub clear_screen : Rgb → State → Run State
  pub draw_smiley : ℕ → ℕ → Rgba → State → Run State
  pub draw_sad_face : ℕ → ℕ → Rgba → State → Run State
