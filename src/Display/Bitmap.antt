-- ===== src/Display/Bitmap.antt =====
-- `draw_bitmap` on a valid frame buffer.
use lemoncake.Base.{ℕ, ◌+◌, ◌-◌, ◌*◌, ◌≤◌, ◌<◌, ◌≡◌, inl, inr, refl, ◌∙◌, arith}
use lemoncake.Base.{leb, ◌==◌, ◌||◌, Bool-cases, ==→≡, ==→≢, List, length, get_elem?}
use lemoncake.Base.{Run, done, for_range, for_range_inv, Option-cases, min}
use lemoncake.Display.{Framebuffer, Rgb, Rgba, put_pixel}
use lemoncake.Display.{draw_cell, draw_bitmap}
use lemoncake.Display.Valid.{Valid, Inside}
use lemoncake.Display.Paint.{Keeps, Differs, Painted, put_pixel-Painted}

-- Where `draw_bitmap` may paint.
abbrev pub InRect : ℕ → ℕ → ℕ → ℕ → ℕ → ℕ → Type 0
InRect x y w h x' y' = (x ≤ x') × (x' < x + w) × (y ≤ y') × (y' < y + h)

-- A state of the loops: the geometry is that of `fb`, and what lies outside the area is kept.
pub record Within (fb : Framebuffer) (x y w h : ℕ) (f : Framebuffer) : Type 0 where
  pub out : List ℕ
  pub state : f ≡ record fb { buffer = out }
  pub size : length out ≡ length fb.buffer
  pub keeps : (x' y' : ℕ) → Inside fb x' y' → ¬ InRect x y w h x' y' → Keeps fb fb.buffer out x' y'

module _ (fb : Framebuffer) (valid : Valid fb) (x y w h : ℕ) where
  pub put_pixel-Within :
      (px py : ℕ) (color : Rgb) (f : Framebuffer)
      → InRect x y w h px py
      → Within fb x y w h f
      → (f' : Framebuffer) × (put_pixel px py color f ≡ done f') × Within fb x y w h f'
  put_pixel-Within px py color f inside s =
      rw s.state (elim (Bool-cases (leb fb.width px || leb fb.height py)) [
        | inl off ↦ (
          now,
          law.1 (λ i. ground arith),
          record { out = s.out; state = refl; size = s.size; keeps = s.keeps },
        )
        | inr on ↦
            let (out, run, p) = law.0 (ground arith) in
            (
              record now { buffer = out },
              run,
              record {
                out = out;
                state = refl;
                size = p.size ∙ s.size;
                keeps = λ x' y' i out_of k l.
                    p.keeps x' y' i (apart x' y' out_of) k l ∙ s.keeps x' y' i out_of k l;
              },
            )
      ])
    where
      now : Framebuffer
      now = record fb { buffer = s.out }

      now-Valid : Valid now
      now-Valid = record {
        wide = valid.wide;
        deep = valid.deep;
        fits = omega (arith, valid.fits, s.size);
      }

      law :
          (Inside now px py
            → (out : List ℕ) × (put_pixel px py color now ≡ done (record now { buffer = out }))
              × Painted now px py color s.out out)
          × (¬ Inside now px py → put_pixel px py color now ≡ done now)
      law = put_pixel-Painted now px py color now-Valid

      apart : (x' y' : ℕ) → ¬ InRect x y w h x' y' → Differs px py x' y'
      apart x' y' out_of = elim (Bool-cases (px == x')) [
        | inr ne ↦ inl (==→≢ px x' ne)
        | inl eq ↦ inr (λ e. out_of (omega (arith, ==→≡ px x' eq)))
      ]

  draw_cell-Within :
      (bitmap : List Rgba) (index px py : ℕ) (f : Framebuffer)
      → InRect x y w h px py
      → Within fb x y w h f
      → (f' : Framebuffer) × (draw_cell bitmap index px py f ≡ done f') × Within fb x y w h f'
  unfolding draw_cell
  draw_cell-Within bitmap index px py f inside s = elim (Option-cases (get_elem? bitmap index)) [
    | inl e ↦ (f, rw (e, draw_cell), s)
    | inr ((r, g, b, a), e) ↦ elim (Bool-cases (a == 0)) [
      | inl z ↦ (f, rw (e, z, draw_cell), s)
      | inr nz ↦
          let (f', run, s') = put_pixel-Within px py (r, g, b) f inside s in
          (f', rw (e, nz, draw_cell) run, s')
    ]
  ]

-- Drawing a bitmap of any length, at any position, on a valid frame buffer does not panic, keeps the
-- geometry and the buffer's length, and changes no pixel outside the bitmap's rectangle.
pub draw_bitmap-Within :
    (fb : Framebuffer) (bitmap : List Rgba) (width height x y : ℕ)
    → Valid fb
    → (f : Framebuffer) × (draw_bitmap bitmap width height x y fb ≡ done f)
      × Within fb x y width height f
unfolding draw_bitmap
draw_bitmap-Within fb bitmap width height x y valid =
    elim (Bool-cases (min (fb.width - x) width == 0 || min (fb.height - y) height == 0)) [
      | inl nothing ↦ (fb, rw nothing, start)
      | inr some_pixels ↦
          let (f, run, s) =
            for_range_inv (λ _. Within fb x y width height) rows mh row mh 0 fb (omega arith)
              start in
          (f, rw some_pixels run, s)
    ]
  where
    mw : ℕ
    mw = min (fb.width - x) width

    mh : ℕ
    mh = min (fb.height - y) height

    cell : ℕ → ℕ → Framebuffer → Run Framebuffer
    cell r c = draw_cell bitmap (r * width + c) (x + c) (y + r)

    rows : ℕ → Framebuffer → Run Framebuffer
    rows r = for_range mw 0 (cell r)

    start : Within fb x y width height fb
    start = record { out = fb.buffer; state = refl; size = refl; keeps = λ x' y' i o k l. refl }

    row :
        (r : ℕ) (f : Framebuffer)
        → r < mh
        → Within fb x y width height f
        → (f' : Framebuffer) × (rows r f ≡ done f') × Within fb x y width height f'
    row r f hr s =
        for_range_inv (λ _. Within fb x y width height) (cell r) mw
          (λ c g hc k.
            draw_cell-Within fb valid x y width height bitmap (r * width + c) (x + c) (y + r) g
              (omega arith) k)
          mw 0 f (omega arith) s
