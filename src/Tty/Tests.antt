-- ===== src/Tty/Tests.antt =====
-- A terminal of three columns and two rows, for kernel/src/display.rs.
use lemoncake.Base.{ℕ, ◌+◌, ◌≡◌, refl, arith, true, List, done, replicate}
use lemoncake.Display.{Rgba}
use lemoncake.Tty.{Cell, Tty, empty, scroll_up}
use lemoncake.Tty.Device.{Screen}
use lemoncake.Tty.Scroll.{Scrolled}
use lemoncake.Tty.Valid.{Sized, Draws, scroll_up-Scrolled}

-- A screen that counts what is drawn.
abbrev counter : Screen
counter = record {
  State = ℕ;
  font_height = λ s. 16;
  present = λ s. true;
  draw_char = λ x y c color s. done (s + 1);
  clear_screen = λ color s. done 0;
  draw_smiley = λ x y color s. done s;
  draw_sad_face = λ x y color s. done s;
}

abbrev counter-Draws : Draws counter
counter-Draws = record {
  Good = λ s. Unit;
  draw_char = λ x y c color s g. (s + 1, refl, tt);
  clear_screen = λ s g. (0, refl, tt);
}

abbrev white : Rgba
white = (255, 255, 255, 255)

abbrev small : Tty
small = record {
  width = 3;
  height = 2;
  text_buf = replicate 8 (empty (255, 255, 255, 255));
  cursor_x = 2;
  cursor_y = 1;
  fg_color = (255, 255, 255, 255);
}

small-Sized : Sized small
small-Sized = record { wide = omega arith; high = omega arith; fits = omega arith }

scroll_up-Scrolled_example :
    (buf : List Cell) × (s' : ℕ) × (scroll_up counter (small, 0)
      ≡ done (record small { text_buf = buf }, s'))
    × Unit {0}
    × Scrolled 3 2 white small.text_buf buf
scroll_up-Scrolled_example = scroll_up-Scrolled counter counter-Draws small 0 small-Sized tt
