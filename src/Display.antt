-- ===== src/Display.antt =====
-- `Framebuffer` of kernel/src/display.rs: pixels in a byte buffer. The frame buffer of the
-- bootloader is its geometry and its bytes. The sums and products of offsets are not checked for
-- overflow here: on the buffers of `Display.Valid` they stay below the buffer's length.
pub mod Valid
pub mod Paint
pub mod Clear
pub mod Bitmap
pub mod Faces
mod Tests
use lemoncake.Base.{
  ℕ, ◌+◌, ◌-◌, ◌*◌, ◌/◌, min, ltb, leb, ◌==◌, not, ◌||◌, if◌then◌else◌, true, false,
}
use lemoncake.Base.{Option, none, some, List, [], ◌∷◌, length, get_elem?, Run, done, panic, ◌>>=◌}
use lemoncake.Base.{add_w, sub_w, store, for_range}

pub data PixelFormat : Type 0 where
  rgb bgr gray other : PixelFormat

pub record Framebuffer : Type 0 where
  pub width : ℕ
  pub height : ℕ
  pub stride : ℕ
  pub bytes_per_pixel : ℕ
  pub format : PixelFormat
  pub buffer : List ℕ

-- Red, green and blue, each a byte.
abbrev pub Rgb : Type 0
Rgb = ℕ × ℕ × ℕ

abbrev pub Rgba : Type 0
Rgba = ℕ × ℕ × ℕ × ℕ

-- The three stores of a colour, in the order of the format.
abbrev pub store3 : ℕ → ℕ → ℕ → ℕ → List ℕ → Run (List ℕ)
store3 off a b c buf = do
  buf1 ← store off a buf
  buf2 ← store (off + 1) b buf1
  store (off + 2) c buf2

pub put_bytes : PixelFormat → ℕ → Rgb → List ℕ → Run (List ℕ)
put_bytes PixelFormat.rgb off (r, g, b) buf = store3 off r g b buf
put_bytes PixelFormat.bgr off (r, g, b) buf = store3 off b g r buf
put_bytes PixelFormat.gray off (r, g, b) buf = store off r buf
put_bytes PixelFormat.other off color buf = done buf

abbrev pub with_buffer : Framebuffer → Run (List ℕ) → Run Framebuffer
with_buffer fb r = r >>= λ buf. done (record fb { buffer = buf })

abbrev pub byte_offset : Framebuffer → ℕ → ℕ → ℕ
byte_offset fb x y = (y * fb.stride + x) * fb.bytes_per_pixel

pub put_pixel : ℕ → ℕ → Rgb → Framebuffer → Run Framebuffer
unfolding put_bytes
put_pixel x y color fb =
    if leb fb.width x || leb fb.height y
    then done fb
    else with_buffer fb (put_bytes fb.format (byte_offset fb x y) color fb.buffer)

-- `(color.0 + color.1 + color.2) / 3` in `u8`
pub gray_of : Rgb → Run ℕ
gray_of (r, g, b) = do two ← add_w 8 r g; three ← add_w 8 two b; done (three / 3)

-- One pixel of `clear_screen`.
pub clear_bytes : PixelFormat → ℕ → Rgb → List ℕ → Run (List ℕ)
unfolding gray_of
clear_bytes PixelFormat.rgb off (r, g, b) buf = store3 off r g b buf
clear_bytes PixelFormat.bgr off (r, g, b) buf = store3 off b g r buf
clear_bytes PixelFormat.gray off color buf = gray_of color >>= λ v. store off v buf
clear_bytes PixelFormat.other off color buf = done buf

pub clear_screen : Rgb → Framebuffer → Run Framebuffer
unfolding clear_bytes for_range
clear_screen color fb = with_buffer fb (
    for_range fb.height 0
      (λ y. for_range fb.width 0 (λ x. clear_bytes fb.format (byte_offset fb x y) color)) fb.buffer)

-- `draw_rect` counts three bytes to a pixel, or one for `gray`, whatever `bytes_per_pixel` is.
pub rect_bytes : PixelFormat → ℕ → ℕ → Rgb → List ℕ → Run (List ℕ)
rect_bytes PixelFormat.rgb start i (r, g, b) buf = store3 (start * 3 + i * 3) r g b buf
rect_bytes PixelFormat.bgr start i (r, g, b) buf = store3 (start * 3 + i * 3) b g r buf
rect_bytes PixelFormat.gray start i (v, _, _) buf = store (start + i) v buf
rect_bytes PixelFormat.other start i color buf = done buf

-- The gray value is computed once, before the loop.
pub rect_color : PixelFormat → Rgb → Run Rgb
unfolding gray_of
rect_color PixelFormat.gray color = gray_of color >>= λ v. done (v, v, v)
rect_color PixelFormat.rgb color = done color
rect_color _ color = done color

pub draw_rect : ℕ → ℕ → ℕ → ℕ → Rgb → Framebuffer → Run Framebuffer
unfolding rect_bytes rect_color for_range
draw_rect x y w h color fb =
    if leb fb.width x || leb fb.height y || leb (x + w) x || leb (y + h) y then done fb else (do
      right ← sub_w fb.width w
      bottom ← sub_w fb.height h
      let left = min x right
      let top = min y bottom
      shade ← rect_color fb.format color
      with_buffer fb (
          for_range h top (λ line_y. for_range w 0 (rect_pixel (line_y * fb.stride + left) shade))
            fb.buffer))
  where
    rect_pixel : ℕ → Rgb → ℕ → List ℕ → Run (List ℕ)
    rect_pixel start shade i = rect_bytes fb.format start i shade

-- A pixel of a bitmap is drawn if it is there and its alpha is not 0.
pub draw_cell : List Rgba → ℕ → ℕ → ℕ → Framebuffer → Run Framebuffer
unfolding put_pixel
draw_cell bitmap index x y fb = elim (get_elem? bitmap index) [
  | none ↦ done fb
  | some (r, g, b, a) ↦ if a == 0 then done fb else put_pixel x y (r, g, b) fb
]

pub draw_bitmap : List Rgba → ℕ → ℕ → ℕ → ℕ → Framebuffer → Run Framebuffer
unfolding draw_cell for_range
draw_bitmap bitmap width height x y fb =
    let mw = min (fb.width - x) width in
    let mh = min (fb.height - y) height in
    if mw == 0 || mh == 0
    then done fb
    else for_range mh 0
        (λ row. for_range mw 0 (λ col. draw_cell bitmap (row * width + col) (x + col) (y + row))) fb

-- The pixels of a face, drawn in order.
pub put_pixels : List (ℕ × ℕ) → Rgb → Framebuffer → Run Framebuffer
unfolding put_pixel
put_pixels [] color fb = done fb
put_pixels ((x, y) ∷ rest) color fb = put_pixel x y color fb >>= put_pixels rest color

abbrev pub smiley_points : ℕ → ℕ → List (ℕ × ℕ)
smiley_points x y =
    (x + 1, y)
    ∷ (x + 1, y + 1)
    ∷ (x + 5, y)
    ∷ (x + 5, y + 1)
    ∷ (x, y + 4)
    ∷ (x + 1, y + 5)
    ∷ (x + 2, y + 5)
    ∷ (x + 3, y + 5)
    ∷ (x + 4, y + 5)
    ∷ (x + 5, y + 5)
    ∷ (x + 6, y + 4)
    ∷ []

pub draw_smiley : ℕ → ℕ → Rgba → Framebuffer → Run Framebuffer
unfolding put_pixels
draw_smiley x y (r, g, b, a) fb =
    if a == 0 then done fb else put_pixels (smiley_points x y) (r, g, b) fb

abbrev pub sad_points : ℕ → ℕ → List (ℕ × ℕ)
sad_points x y =
    (x + 1, y)
    ∷ (x + 1, y + 1)
    ∷ (x + 5, y)
    ∷ (x + 5, y + 1)
    ∷ (x, y + 5)
    ∷ (x + 1, y + 4)
    ∷ (x + 2, y + 4)
    ∷ (x + 3, y + 4)
    ∷ (x + 4, y + 4)
    ∷ (x + 5, y + 4)
    ∷ (x + 6, y + 5)
    ∷ []

pub draw_sad_face : ℕ → ℕ → Rgba → Framebuffer → Run Framebuffer
unfolding put_pixels
draw_sad_face x y (r, g, b, a) fb =
    if a == 0 then done fb else put_pixels (sad_points x y) (r, g, b) fb
