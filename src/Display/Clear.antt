-- ===== src/Display/Clear.antt =====
-- `clear_screen` on a valid frame buffer.
use lemoncake.Base.{ℕ, ◌+◌, ◌<◌, ◌≡◌, ◌⊎◌, inl, inr, refl, ◌∙◌, arith}
use lemoncake.Base.{ltb, Bool-cases, ltb→lt, ltb_false→le, List, length}
use lemoncake.Base.{done, for_range, for_range_inv}
use lemoncake.Display.{Framebuffer, PixelFormat, Rgb, put_bytes, byte_offset}
use lemoncake.Display.{clear_bytes, clear_screen}
use lemoncake.Display.Valid.{Valid, Inside}
use lemoncake.Display.Paint.{Shows, paint}

-- The formats with three channels.
abbrev pub IsColour : PixelFormat → Type 0
IsColour PixelFormat.rgb = Unit
IsColour PixelFormat.bgr = Unit
IsColour PixelFormat.gray = ⊥
IsColour PixelFormat.other = ⊥

clear_bytes-put_bytes :
    (f : PixelFormat) (off : ℕ) (color : Rgb) (buf : List ℕ)
    → IsColour f
    → clear_bytes f off color buf ≡ put_bytes f off color buf
unfolding clear_bytes put_bytes
clear_bytes-put_bytes PixelFormat.rgb off color buf h = refl
clear_bytes-put_bytes PixelFormat.bgr off color buf h = refl
clear_bytes-put_bytes PixelFormat.gray off color buf h = absurd h
clear_bytes-put_bytes PixelFormat.other off color buf h = absurd h

module _ (fb : Framebuffer) (valid : Valid fb) (color : Rgb) (colour : IsColour fb.format) where
  -- The rows above `y`, and in row `y` the pixels left of `x`, are painted.
  abbrev Cleared : ℕ → ℕ → List ℕ → Type 0
  Cleared y x buf =
      (length buf ≡ length fb.buffer)
      × ((x' y' : ℕ) → Inside fb x' y' → (y' < y) ⊎ (y' ≡ y) × (x' < x) → Shows fb buf x' y' color)

  clear_step :
      (y x : ℕ) (buf : List ℕ)
      → Inside fb x y
      → Cleared y x buf
      → (out : List ℕ) × (clear_bytes fb.format (byte_offset fb x y) color buf ≡ done out)
        × Cleared y (x + 1) out
  clear_step y x buf i h =
      let (out, run, p) = paint fb valid x y color buf h.0 i in
      (
        out,
        clear_bytes-put_bytes fb.format (byte_offset fb x y) color buf colour ∙ run,
        (
          p.size ∙ h.0,
          λ x' y' i' before. elim before [
            | inl up ↦
                λ k l. p.keeps x' y' i' (inr (λ e. omega arith)) k l ∙ h.1 x' y' i' (inl up) k l
            | inr (row, left) ↦ elim (Bool-cases (ltb x' x)) [
              | inl less ↦
                  let less' : x' < x = ltb→lt x' x less in
                  λ k l.
                    p.keeps x' y' i' (inl (λ e. omega arith)) k l
                    ∙ h.1 x' y' i' (inr (row, less')) k l
              | inr more ↦
                  let same : x' ≡ x = omega (arith, ltb_false→le x' x more) in
                  rw (same, row) p.shows
            ]
          ],
        ),
      )

  clear_row :
      (y : ℕ) (buf : List ℕ)
      → y < fb.height
      → Cleared y 0 buf
      → (out : List ℕ) × (for_range fb.width 0
            (λ x. clear_bytes fb.format (byte_offset fb x y) color)
            buf
          ≡ done out)
        × Cleared (y + 1) 0 out
  clear_row y buf hy h =
      let (out, run, c) =
        for_range_inv (Cleared y) (λ x. clear_bytes fb.format (byte_offset fb x y) color) fb.width
          (λ x b hx k. clear_step y x b (hx, hy) k) fb.width 0 buf (omega arith) h in
      (out, run, (c.0, λ x' y' i' before. c.1 x' y' i' (ground arith)))

-- Clearing a valid colour frame buffer does not panic, keeps the buffer's length, and gives every
-- visible pixel the colour.
pub clear_screen-Shows :
    (fb : Framebuffer) (color : Rgb)
    → Valid fb
    → IsColour fb.format
    → (out : List ℕ) × (clear_screen color fb ≡ done (record fb { buffer = out }))
      × (length out ≡ length fb.buffer)
      × ((x y : ℕ) → Inside fb x y → Shows fb out x y color)
unfolding clear_screen
clear_screen-Shows fb color valid colour =
    let (out, run, c) =
      for_range_inv (λ y. Cleared fb valid color colour y 0)
        (λ y. for_range fb.width 0 (λ x. clear_bytes fb.format (byte_offset fb x y) color))
        fb.height (clear_row fb valid color colour) fb.height 0 fb.buffer (omega arith)
        (refl, λ x' y' i' before. absurd (ground arith)) in
    (out, rw run, c.0, λ x y i. c.1 x y i (inl i.1))
