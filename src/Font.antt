-- ===== src/Font.antt =====
-- kernel/src/font.rs: the two formats of PSF fonts and the drawing of a glyph. A font file is a list
-- of bytes; `FONT_HEIGHT` is the height of the font that was read last.
pub mod Glyph
pub mod Draw
mod Tests
use lemoncake.Base.{
  ℕ, zero, suc, ◌+◌, ◌-◌, ◌*◌, ◌/◌, ◌%◌, ◌^◌, bit_and, ltb, leb, ◌==◌, ◌||◌, ◌&&◌, if◌then◌else◌,
}
use lemoncake.Base.{
  Bool, true, false, not, Option, none, some, List, [], ◌∷◌, length, take, drop, get_elem?,
  replicate, Run, done, ◌>>=◌,
}
use lemoncake.Base.{checked_mul, word, shr, slice, cut, store, for_range}
use lemoncake.Display.{Framebuffer, Rgba, draw_bitmap}

pub record Font : Type 0 where
  pub glyphs : List ℕ
  pub num_glyphs : ℕ
  pub bytes_per_glyph : ℕ
  pub height : ℕ
  pub width : ℕ

-- The little-endian number in `n` bytes from the front; a byte past the end counts as 0.
unfoldable pub little_endian : ℕ → List ℕ → ℕ
little_endian zero bytes = 0
little_endian (suc n) [] = 0
little_endian (suc n) (b ∷ bytes) = b + 256 * little_endian n bytes

-- The sizes of the headers and the offsets of their fields, which are packed.
abbrev pub u32_at : ℕ → List ℕ → ℕ
u32_at offset bytes = little_endian 4 (drop offset bytes)

abbrev pub with_glyphs : List ℕ → ℕ → ℕ → ℕ → ℕ → Option Font
with_glyphs glyphs num_glyphs bytes_per_glyph height width =
    elim (checked_mul bytes_per_glyph num_glyphs) [
      | none ↦ none
      | some total ↦
          if ltb (length glyphs) total
          then none
          else some (record {
            glyphs = glyphs;
            num_glyphs = num_glyphs;
            bytes_per_glyph = bytes_per_glyph;
            height = height;
            width = width;
          })
    ]

unfoldable pub parse_psf2 : List ℕ → Option Font
unfolding little_endian
parse_psf2 font =
    let header_size = u32_at 8 font in
    if ltb (length font) header_size
    then none
    else with_glyphs (drop header_size font) (u32_at 16 font) (u32_at 20 font) (u32_at 24 font)
        (u32_at 28 font)

unfoldable pub parse_psf1 : List ℕ → Option Font
unfolding little_endian
parse_psf1 font =
    let mode = little_endian 1 (drop 2 font) in
    let char_size = little_endian 1 (drop 3 font) in
    with_glyphs (drop 4 font) (if bit_and mode 1 == 0 then 256 else 512) char_size char_size 8

unfoldable pub parse_psf : List ℕ → Option Font
unfolding parse_psf1 parse_psf2 little_endian
parse_psf font =
    if leb 32 (length font) && (u32_at 0 font == 0x864ab572)
    then parse_psf2 font
    else if leb 4 (length font) && (little_endian 2 font == 0x0436)
    then parse_psf1 font
    else none

unfoldable pub glyph_index : Font → ℕ → ℕ
glyph_index font code =
    let index = if leb code 0xFF then code else 0 in
    if leb font.num_glyphs index
    then (if leb 32 code && ltb (code - 32) font.num_glyphs then code - 32 else 0)
    else index

-- The bytes of the character's glyph, `none` where the code returns without drawing. The sum
-- `start + bpg` overflows for no font that `parse_psf` accepts.
unfoldable pub glyph_of : Font → ℕ → Option (List ℕ)
unfolding glyph_index
glyph_of font code =
    let start = glyph_index font code * font.bytes_per_glyph in
    if leb (word - 1) start || ltb (length font.glyphs) (start + font.bytes_per_glyph)
    then none
    else some (cut start (start + font.bytes_per_glyph) font.glyphs)

-- `div_ceil`
abbrev pub div_ceil : ℕ → ℕ → ℕ
div_ceil a b = (a + b - 1) / b

unfoldable pub pixel_on : Font → List ℕ → ℕ → ℕ → Bool
pixel_on font glyph row bit = elim (get_elem? glyph (row * div_ceil font.width 8 + bit / 8)) [
  | none ↦ false
  | some b ↦ not (bit_and (shr b (7 - bit % 8)) 1 == 0)
]

unfoldable pub set_pixel : Font → List ℕ → Rgba → ℕ → ℕ → List Rgba → Run (List Rgba)
unfolding pixel_on
set_pixel font glyph color row bit bitmap =
    if pixel_on font glyph row bit then store (row * font.width + bit) color bitmap else done bitmap

-- The two loops that fill the bitmap.
unfoldable pub glyph_bitmap : Font → List ℕ → Rgba → Run (List Rgba)
unfolding for_range set_pixel
glyph_bitmap font glyph color =
    for_range font.height 0 (λ row. for_range font.width 0 (set_pixel font glyph color row))
      (replicate 1024 (0, 0, 0, 0))

-- `FRAMEBUFFER` may hold nothing; then nothing is drawn.
unfoldable pub draw_char_psf :
    List ℕ → ℕ → ℕ → ℕ → Rgba → Option Framebuffer → Run (Option Framebuffer)
draw_char_psf font_data x y code color screen = elim (parse_psf font_data) [
  | none ↦ done screen
  | some font ↦
      let max_size = font.width * font.height in
      if max_size == 0 || ltb 1024 max_size then done screen else elim (glyph_of font code) [
        | none ↦ done screen
        | some glyph ↦ (do
          bitmap ← glyph_bitmap font glyph color
          elim screen [
            | none ↦ done none
            | some fb ↦ (do
              visible ← slice 0 max_size bitmap
              fb' ← draw_bitmap visible font.width font.height x y fb
              done (some fb'))
          ])
      ]
]
