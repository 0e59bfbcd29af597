-- ===== src/Display/Tests.antt =====
-- A frame buffer of two by two pixels, for kernel/src/display.rs.
use lemoncake.Base.{ℕ, ◌≡◌, arith, List, done, length, replicate}
use lemoncake.Display.{Framebuffer, PixelFormat, put_pixel, clear_screen}
use lemoncake.Display.Valid.{Valid, Inside}
use lemoncake.Display.Paint.{Shows, Painted, put_pixel-Painted}
use lemoncake.Display.Clear.{clear_screen-Shows}

abbrev small : Framebuffer
small = record {
  width = 2;
  height = 2;
  stride = 3;
  bytes_per_pixel = 4;
  format = PixelFormat.bgr;
  buffer = replicate 24 0;
}

small-Valid : Valid small
small-Valid = record { wide = omega arith; deep = omega arith; fits = omega arith }

put_pixel-Painted_example :
    (Inside small 1 1
      → (out : List ℕ) × (put_pixel 1 1 (1, 2, 3) small ≡ done (record small { buffer = out }))
        × Painted small 1 1 (1, 2, 3) small.buffer out)
    × (¬ Inside small 1 1 → put_pixel 1 1 (1, 2, 3) small ≡ done small)
put_pixel-Painted_example = put_pixel-Painted small 1 1 (1, 2, 3) small-Valid

clear_screen-Shows_example :
    (out : List ℕ) × (clear_screen (30, 30, 46) small ≡ done (record small { buffer = out }))
    × (length out ≡ 24)
    × ((x y : ℕ) → Inside small x y → Shows small out x y (30, 30, 46))
clear_screen-Shows_example = clear_screen-Shows small (30, 30, 46) small-Valid tt
