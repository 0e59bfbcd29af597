-- ===== src/Png/Draw.antt =====
-- An image of kernel/src/png.rs on a valid frame buffer.
use lemoncake.Base.{ℕ, ◌≡◌, refl, true, List, Option, some, done}
use lemoncake.Display.{Framebuffer}
use lemoncake.Display.Valid.{Valid}
use lemoncake.Display.Bitmap.{Within, draw_bitmap-Within}
use lemoncake.Png.{Image, draw_png, rgb_tuples}

-- An RGBA image of any size, with any bytes, at any position: drawing it does not panic and changes
-- no pixel outside its rectangle.
pub draw_png-Within :
    (decoder : List ℕ → Option Image) (file bytes : List ℕ) (image : Image) (width height x y : ℕ)
    (fb : Framebuffer)
    → decoder file ≡ some image
    → image.is_rgba ≡ some true
    → image.dimensions ≡ some (width, height)
    → image.bytes ≡ some bytes
    → Valid fb
    → (f : Framebuffer) × (draw_png decoder file x y (some fb) ≡ done (some f))
      × Within fb x y width height f
unfolding draw_png
draw_png-Within decoder file bytes image width height x y fb decoded rgba size content valid =
    let (f, run, w) = draw_bitmap-Within fb (rgb_tuples bytes) width height x y valid in
    (f, rw (decoded, rgba, size, content, run) refl, w)
