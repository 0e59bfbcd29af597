-- ===== src/Log/Samples.antt =====
-- A port that keeps its text and a terminal of three columns and two rows, for kernel/src/logging.rs.
use lemoncake.Base.{false, ℕ, refl, arith, List, [], ◌∷◌, ◌++◌, some, replicate, codes}
use lemoncake.Display.{Framebuffer, PixelFormat}
use lemoncake.Display.Valid.{Valid}
use lemoncake.Tty.{empty}
use lemoncake.Tty.Device.{Screen}
use lemoncake.Tty.Valid.{Draws}
use lemoncake.Console.{console}
use lemoncake.Console.Print.{console-Draws, console-Faces}
use lemoncake.Tty.Faces.{Faces}
use lemoncake.Log.{Location, Output}
use lemoncake.Log.Device.{Serial, Sends}
use lemoncake.Log.Arrive.{Fit}

-- A port that keeps what it sent.
abbrev pub wire : Serial
wire = record { State = List ℕ; write_str = λ text sent. some (sent ++ text) }

abbrev pub wire-Sends : Sends wire
wire-Sends = record { received = λ sent. sent; write_str = λ text s. (s ++ text, refl, refl) }

abbrev pub font_file : List ℕ
font_file = 0x36 ∷ 0x04 ∷ 0 ∷ 8 ∷ replicate 2048 0x81

abbrev pub buffer : Framebuffer
buffer = record {
  width = 24;
  height = 16;
  stride = 24;
  bytes_per_pixel = 3;
  format = PixelFormat.rgb;
  buffer = replicate 1152 0;
}

pub buffer-Valid : Valid buffer
buffer-Valid = record { wide = omega arith; deep = omega arith; fits = omega arith }

abbrev pub screen : Screen
screen = console font_file

abbrev pub screen-Draws : Draws screen
screen-Draws = console-Draws font_file buffer buffer-Valid tt

abbrev pub screen-Faces : Faces screen screen-Draws
screen-Faces = console-Faces font_file buffer buffer-Valid tt

abbrev pub start : Output screen wire
start = record {
  tty = some (record {
    width = 3;
    height = 2;
    text_buf = replicate 6 (empty (255, 255, 255, 255));
    cursor_x = 2;
    cursor_y = 1;
    fg_color = (255, 255, 255, 255);
  });
  shown = record { framebuffer = some buffer; font_height = 8 };
  line = [];
  tty_held = false;
  line_held = false;
}

abbrev pub place : Location
place = record { file = codes "src/main.rs"; line = codes "12"; column = codes "5" }

pub start-Fit : Fit screen screen-Draws wire wire-Sends start
start-Fit = (
  refl,
  refl,
  record {
    sized = record { wide = omega arith; high = omega arith; fits = omega arith };
    in_row = omega arith;
    in_column = omega arith;
  },
  (replicate 1152 0, refl, refl),
)
