-- ===== src/Font/Glyph.antt =====
-- The glyphs of kernel/src/font.rs: which bytes are read, and that the bitmap has room for them.
use lemoncake.Base.{ℕ, bit_and, ◌+◌, ◌-◌, ◌*◌, ◌<◌, ◌≤◌, ltb, leb, ◌==◌, ◌&&◌, if◌then◌else◌}
use lemoncake.Base.{
  false, none, some, List, length, length-set, length-replicate, Bool-cases, inl, inr,
}
use lemoncake.Base.{
  ◌≡◌, refl, ◌∙◌, arith, done, for_range_inv, cut, word, set, lt→ltb, le→ltb_false, drop,
  length-cut, gt→leb_false,
}
use native.Mathlib.Nat.{mul_comm, mul-le-mul_right}
use lemoncake.Display.{Rgba}
use lemoncake.Font.{
  Font, parse_psf, parse_psf1, parse_psf2, little_endian, u32_at, with_glyphs, glyph_index,
  glyph_of, pixel_on, set_pixel, glyph_bitmap,
}

-- The glyphs that a font declares are in its file.
pub Whole : Font → Type 0
Whole f =
    (f.bytes_per_glyph * f.num_glyphs ≤ length f.glyphs) × (f.bytes_per_glyph * f.num_glyphs < word)

next_row : (i n w : ℕ) → i < n → i * w + w ≤ w * n
next_row i n w h = omega (arith, mul-le-mul_right w h, mul_comm w n)

-- What `with_glyphs` answers, whichever header it was called for.
with_glyphs-Whole :
    (glyphs : List ℕ) (n b h w : ℕ) {f : Font} → with_glyphs glyphs n b h w ≡ some f → Whole f
unfolding Whole
with_glyphs-Whole glyphs n b h w {f} e = ground arith

parse_psf1-Whole : (file : List ℕ) {f : Font} → parse_psf1 file ≡ some f → Whole f
unfolding parse_psf1
parse_psf1-Whole file e =
    let mode = little_endian 1 (drop 2 file) in
    let size = little_endian 1 (drop 3 file) in
    with_glyphs-Whole (drop 4 file) (if bit_and mode 1 == 0 then 256 else 512) size size 8 e

parse_psf2-Whole : (file : List ℕ) {f : Font} → parse_psf2 file ≡ some f → Whole f
unfolding parse_psf2
parse_psf2-Whole file {f} e =
    elim (Bool-cases (ltb (length file) (little_endian 4 (drop 8 file)))) [
      | inl short ↦ let impossible : none ≡ some f = rw short at e in cc
      | inr long ↦
          with_glyphs-Whole (drop (u32_at 8 file) file) (u32_at 16 file) (u32_at 20 file)
            (u32_at 24 file) (u32_at 28 file) (rw long at e)
    ]

pub parse_psf-Whole : (file : List ℕ) {f : Font} → parse_psf file ≡ some f → Whole f
unfolding parse_psf
parse_psf-Whole file {f} e =
    elim (Bool-cases (leb 32 (length file) && (little_endian 4 (drop 0 file) == 0x864ab572))) [
      | inl two ↦ parse_psf2-Whole file (rw two at e)
      | inr other ↦ elim (Bool-cases (leb 4 (length file) && (little_endian 2 file == 0x0436))) [
        | inl one ↦ parse_psf1-Whole file (rw (other, one) at e)
        | inr neither ↦ let impossible : none ≡ some f = rw (other, neither) at e in cc
      ]
    ]

index-lt : (f : Font) (code : ℕ) → 0 < f.num_glyphs → glyph_index f code < f.num_glyphs
unfolding glyph_index
index-lt f code h = ground arith

-- In a font that was read from a file, and has a glyph and bytes in it, every character has a
-- glyph of `bytes_per_glyph` bytes, so that the slice of the glyphs is in range.
pub glyph_of-some :
    (file : List ℕ) (f : Font) (code : ℕ)
    → parse_psf file ≡ some f
    → 0 < f.num_glyphs
    → 0 < f.bytes_per_glyph
    → (glyph : List ℕ) × (glyph_of f code ≡ some glyph) × (length glyph ≡ f.bytes_per_glyph)
unfolding glyph_of Whole
glyph_of-some file f code e n b =
    let (fits, small) = parse_psf-Whole file e in
    let i = glyph_index f code in
    let below : i * f.bytes_per_glyph + f.bytes_per_glyph ≤ f.bytes_per_glyph * f.num_glyphs =
      next_row i f.num_glyphs f.bytes_per_glyph (index-lt f code n) in
    let not_max : leb (word - 1) (i * f.bytes_per_glyph) ≡ false =
      gt→leb_false _ _ (omega (arith, below, small, b)) in
    let inside : ltb (length f.glyphs) (i * f.bytes_per_glyph + f.bytes_per_glyph) ≡ false =
      le→ltb_false _ _ (omega (arith, below, fits)) in
    (
      cut (i * f.bytes_per_glyph) (i * f.bytes_per_glyph + f.bytes_per_glyph) f.glyphs,
      rw (not_max, inside) refl,
      length-cut _ _ f.glyphs (omega arith) (omega (arith, below, fits)) ∙ omega arith,
    )

-- For a font of at most 1024 pixels the loops over a glyph of any bytes stay in the bitmap and
-- do not panic.
pub glyph_bitmap-done :
    (f : Font) (glyph : List ℕ) (color : Rgba)
    → f.width * f.height ≤ 1024
    → (bitmap : List Rgba) × (glyph_bitmap f glyph color ≡ done bitmap) × (length bitmap ≡ 1024)
unfolding glyph_bitmap set_pixel
glyph_bitmap-done f glyph color small =
    for_range_inv (λ row bitmap. length bitmap ≡ 1024) _ f.height
      (λ row bitmap below_height size.
        for_range_inv (λ bit bitmap. length bitmap ≡ 1024) (set_pixel f glyph color row) f.width
          (λ bit bitmap below_width size.
            pixel row bit bitmap
              (omega (arith, next_row row f.height f.width below_height, below_width, small)) size)
          f.width 0 bitmap (omega arith) size)
      f.height 0 _ (omega arith) (length-replicate {A = Rgba} 1024 (0, 0, 0, 0))
  where
    pixel :
        (row bit : ℕ) (bitmap : List Rgba)
        → row * f.width + bit < 1024
        → length bitmap ≡ 1024
        → (after : List Rgba) × (set_pixel f glyph color row bit bitmap ≡ done after)
          × (length after ≡ 1024)
    pixel row bit bitmap in_range size = elim (Bool-cases (pixel_on f glyph row bit)) [
      | inl on ↦ (
        set bitmap (row * f.width + bit) color,
        rw (on, lt→ltb (row * f.width + bit) (length bitmap) (omega (arith, in_range, size))) refl,
        length-set bitmap (row * f.width + bit) color ∙ size,
      )
      | inr off ↦ (bitmap, rw off refl, size)
    ]
