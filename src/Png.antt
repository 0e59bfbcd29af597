-- ===== src/Png.antt =====
-- kernel/src/png.rs: a PNG image on the frame buffer. The decoder is that of the crate `zune_png`, a
-- parameter; its `expect`s panic.
pub mod Draw
mod Tests
use lemoncake.Base.{
  ℕ, Bool, if◌then◌else◌, List, [], ◌∷◌, Option, none, some, Run, done, panic, ◌>>=◌, unwrap,
}
use lemoncake.Display.{Framebuffer, Rgba, draw_bitmap}

-- What the decoder answers for an image that it has decoded.
pub record Image : Type 0 where
  -- whether the colour space is RGBA
  pub is_rgba : Option Bool
  pub dimensions : Option (ℕ × ℕ)
  -- the bytes of `DecodingResult::U8`
  pub bytes : Option (List ℕ)

-- `chunks_exact(4)` as tuples
unfoldable pub rgb_tuples : List ℕ → List Rgba
rgb_tuples (r ∷ g ∷ b ∷ a ∷ rest) = (r, g, b, a) ∷ rgb_tuples rest
rgb_tuples (r ∷ g ∷ b ∷ []) = []
rgb_tuples (r ∷ g ∷ []) = []
rgb_tuples (r ∷ []) = []
rgb_tuples [] = []

abbrev pub on_framebuffer :
    (Framebuffer → Run Framebuffer) → Option Framebuffer → Run (Option Framebuffer)
on_framebuffer draw none = done none
on_framebuffer draw (some fb) = draw fb >>= λ fb'. done (some fb')

module _ (decoder : List ℕ → Option Image) where
  pub decode : List ℕ → Run Image
  decode file = unwrap (decoder file)

  unfoldable pub draw_png : List ℕ → ℕ → ℕ → Option Framebuffer → Run (Option Framebuffer)
  unfolding decode
  draw_png file x y framebuffer = do
    image ← decode file
    rgba ← unwrap image.is_rgba
    (if rgba
        then (unwrap image.dimensions >>= λ (width, height). unwrap image.bytes >>= λ bytes.
            on_framebuffer (draw_bitmap (rgb_tuples bytes) width height x y) framebuffer)
        else panic)
