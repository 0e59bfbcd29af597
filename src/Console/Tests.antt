-- ===== src/Console/Tests.antt =====
-- A terminal of three columns and two rows on a frame buffer of 24 by 16 pixels, for
-- kernel/src/display.rs and kernel/src/font.rs.
use lemoncake.Base.{ℕ, ◌≡◌, refl, arith, List, [], ◌∷◌, some, done, replicate}
use lemoncake.Display.{Framebuffer, PixelFormat}
use lemoncake.Display.Valid.{Valid}
use lemoncake.Tty.{Tty, empty, write_str}
use lemoncake.Tty.Valid as Grid
use lemoncake.Console.{Video, console}
use lemoncake.Console.Print.{Shown, write_str-Shown}

abbrev font_file : List ℕ
font_file = 0x36 ∷ 0x04 ∷ 0 ∷ 8 ∷ replicate 2048 0x81

abbrev buffer : Framebuffer
buffer = record {
  width = 24;
  height = 16;
  stride = 24;
  bytes_per_pixel = 3;
  format = PixelFormat.rgb;
  buffer = replicate 1152 0;
}

buffer-Valid : Valid buffer
buffer-Valid = record { wide = omega arith; deep = omega arith; fits = omega arith }

abbrev video : Video
video = record { framebuffer = some buffer; font_height = 8 }

abbrev terminal : Tty
terminal = record {
  width = 3;
  height = 2;
  text_buf = replicate 6 (empty (255, 255, 255, 255));
  cursor_x = 2;
  cursor_y = 1;
  fg_color = (255, 255, 255, 255);
}

terminal-Valid : Grid.Valid terminal
terminal-Valid = record {
  sized = record { wide = omega arith; high = omega arith; fits = omega arith };
  in_row = omega arith;
  in_column = omega arith;
}

write_str-Shown_example :
    (t' : Tty) × (v' : Video) × (write_str
        (console font_file)
        (b'o' ∷ b'k' ∷ 0x0a ∷ [])
        (terminal, video)
      ≡ some (done (t', v')))
    × Shown buffer v'
    × Grid.Valid t'
    × (t'.width ≡ 3)
    × (t'.height ≡ 2)
write_str-Shown_example =
    write_str-Shown font_file buffer buffer-Valid tt (b'o' ∷ b'k' ∷ 0x0a ∷ []) terminal video
      terminal-Valid (replicate 1152 0, refl, refl)
