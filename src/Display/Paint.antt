-- ===== src/Display/Paint.antt =====
-- `put_pixel` on a valid frame buffer.
use lemoncake.Base.{ℕ, ◌+◌, ◌*◌, ◌≤◌, ◌<◌, ◌≡◌, ◌≢◌, ◌⊎◌, refl, arith}
use lemoncake.Base.{leb, ◌||◌, List, length, get_elem?, some}
use lemoncake.Base.{done, false}
use lemoncake.Display.{Framebuffer, Rgb, put_bytes, byte_offset, put_pixel}
use lemoncake.Display.Valid.{channels, channel, Valid, Inside, offset_fits, index_inj}
use lemoncake.Display.Valid.{offset-Apart, put_bytes-Wrote}

-- The pixel at (x, y) of a buffer with the geometry of `fb` has the colour.
abbrev pub Shows : Framebuffer → List ℕ → ℕ → ℕ → Rgb → Type 0
Shows fb buf x y color =
    (k : ℕ)
    → k < channels fb.format
    → get_elem? buf (byte_offset fb x y + k) ≡ some (channel fb.format color k)

-- The pixel at (x, y) is the same in both buffers.
abbrev pub Keeps : Framebuffer → List ℕ → List ℕ → ℕ → ℕ → Type 0
Keeps fb old buf x y =
    (k : ℕ)
    → k < channels fb.format
    → get_elem? buf (byte_offset fb x y + k) ≡ get_elem? old (byte_offset fb x y + k)

abbrev pub Differs : ℕ → ℕ → ℕ → ℕ → Type 0
Differs x y x' y' = (x ≢ x') ⊎ (y ≢ y')

-- `out` is `buf` with one pixel painted.
pub record Painted (fb : Framebuffer) (x y : ℕ) (color : Rgb) (buf out : List ℕ) : Type 0 where
  pub size : length out ≡ length buf
  pub shows : Shows fb out x y color
  pub keeps : (x' y' : ℕ) → Inside fb x' y' → Differs x y x' y' → Keeps fb buf out x' y'

module _ (fb : Framebuffer) (valid : Valid fb) where
  pub paint :
      (x y : ℕ) (color : Rgb) (buf : List ℕ)
      → length buf ≡ length fb.buffer
      → Inside fb x y
      → (out : List ℕ) × (put_bytes fb.format (byte_offset fb x y) color buf ≡ done out)
        × Painted fb x y color buf out
  paint x y color buf size i =
      let (out, run, w) =
        put_bytes-Wrote fb.format (byte_offset fb x y) color buf
          (omega (arith, offset_fits fb x y valid i, valid.deep)) in
      (
        out,
        run,
        record {
          size = w.size;
          shows = w.painted;
          keeps = λ x' y' i' d k l. w.kept (byte_offset fb x' y' + k) (apart x' y' i' d k l);
        },
      )
    where
      apart :
          (x' y' : ℕ)
          → Inside fb x' y'
          → Differs x y x' y'
          → (k : ℕ) → k < channels fb.format
          → (byte_offset fb x' y' + k < byte_offset fb x y)
            ⊎ (byte_offset fb x y + channels fb.format ≤ byte_offset fb x' y' + k)
      apart x' y' i' d k l = ground (
        arith,
        offset-Apart fb.bytes_per_pixel (y * fb.stride + x) (y' * fb.stride + x'),
        index_inj fb.stride x y x' y',
        valid,
      )

-- On a valid frame buffer `put_pixel` does not panic: inside the frame buffer it paints one
-- pixel and keeps every other, and outside it does nothing.
pub put_pixel-Painted :
    (fb : Framebuffer) (x y : ℕ) (color : Rgb)
    → Valid fb
    → (Inside fb x y
        → (out : List ℕ) × (put_pixel x y color fb ≡ done (record fb { buffer = out }))
          × Painted fb x y color fb.buffer out)
      × (¬ Inside fb x y → put_pixel x y color fb ≡ done fb)
unfolding put_pixel
put_pixel-Painted fb x y color valid = (
  λ i.
      let (out, run, p) = paint fb valid x y color fb.buffer refl i in
      let on : (leb fb.width x || leb fb.height y) ≡ false = ground arith in
      (out, rw (on, run) refl, p),
  λ o. ground arith,
)
