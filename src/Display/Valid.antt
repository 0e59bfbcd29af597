-- ===== src/Display/Valid.antt =====
-- Frame buffers whose bytes hold every pixel: one pixel's bytes are in the buffer, and apart from
-- those of every other pixel.
use lemoncake.Base.{ℕ, zero, suc, ◌+◌, ◌*◌, ◌≤◌, ◌<◌, ◌≡◌, ◌≢◌, ◌⊎◌, inl, inr, refl, ◌∙◌, arith}
use lemoncake.Base.{ltb, ◌==◌, if◌then◌else◌, Bool-cases, List, length, get_elem?, set, some}
use lemoncake.Base.{length-set, get_elem?-set_self, get_elem?-set_ne, done, store}
use lemoncake.Display.{Framebuffer, PixelFormat, Rgb, store3, put_bytes, byte_offset}

abbrev pub channels : PixelFormat → ℕ
channels PixelFormat.rgb = 3
channels PixelFormat.bgr = 3
channels PixelFormat.gray = 1
channels PixelFormat.other = 0

-- The byte of a colour at a place in a pixel.
abbrev pub channel : PixelFormat → Rgb → ℕ → ℕ
channel PixelFormat.rgb (r, g, b) k = if k == 0 then r else if k == 1 then g else b
channel PixelFormat.bgr (r, g, b) k = if k == 0 then b else if k == 1 then g else r
channel PixelFormat.gray (r, g, b) k = r
channel PixelFormat.other (r, g, b) k = 0

pub record Valid (fb : Framebuffer) : Type 0 where
  pub wide : fb.width ≤ fb.stride
  pub deep : channels fb.format ≤ fb.bytes_per_pixel
  pub fits : fb.height * fb.stride * fb.bytes_per_pixel ≤ length fb.buffer

abbrev pub Inside : Framebuffer → ℕ → ℕ → Type 0
Inside fb x y = (x < fb.width) × (y < fb.height)

le-mul : (a b c : ℕ) → a ≤ b → a * c ≤ b * c
le-mul a b c h = grind arith

index_lt : (x y w h : ℕ) → x < w → y < h → y * w + x + 1 ≤ h * w
index_lt x y w h p q = grind arith

pub offset_fits :
    (fb : Framebuffer) (x y : ℕ)
    → Valid fb
    → Inside fb x y
    → byte_offset fb x y + fb.bytes_per_pixel ≤ length fb.buffer
offset_fits fb x y v i = omega (
  arith,
  le-mul (y * fb.stride + x + 1) (fb.height * fb.stride) fb.bytes_per_pixel
      (index_lt x y fb.stride fb.height (omega (arith, v.wide)) i.1),
  v.fits,
)

index_lt_index : (w x y x' y' : ℕ) → x < w → y < y' → y * w + x < y' * w + x'
index_lt_index w x y x' y' h k = grind arith

-- Two pixels in rows of `w` with one index are one.
pub index_inj : (w x y x' y' : ℕ) → x < w → x' < w → y * w + x ≡ y' * w + x' → (x ≡ x') × (y ≡ y')
index_inj w x y x' y' h h' e =
    ground (arith, index_lt_index w x y x' y', index_lt_index w x' y' x y)

abbrev pub Apart : ℕ → ℕ → ℕ → Type 0
Apart n a b = (a + n ≤ b) ⊎ (b + n ≤ a)

pub offset-Apart : (bpp i j : ℕ) → i ≢ j → Apart bpp (i * bpp) (j * bpp)
offset-Apart bpp i j ne = elim (Bool-cases (ltb i j)) [
  | inl less ↦ inl (omega (arith, le-mul (i + 1) j bpp (ground arith)))
  | inr more ↦ inr (omega (arith, le-mul (j + 1) i bpp (ground arith)))
]

-- `out` is `buf` with a colour at `off`.
pub record Wrote (f : PixelFormat) (off : ℕ) (color : Rgb) (buf out : List ℕ) : Type 0 where
  pub size : length out ≡ length buf
  pub painted : (k : ℕ) → k < channels f → get_elem? out (off + k) ≡ some (channel f color k)
  pub kept : (j : ℕ) → (j < off) ⊎ (off + channels f ≤ j) → get_elem? out j ≡ get_elem? buf j

store_lem :
    (i v : ℕ) (buf : List ℕ)
    → i < length buf
    → (store i v buf ≡ done (set buf i v))
      × (length (set buf i v) ≡ length buf)
      × (get_elem? (set buf i v) i ≡ some v)
store_lem i v buf h = (ground arith, length-set buf i v, get_elem?-set_self buf i v h)

store3_Wrote :
    (off a b c : ℕ) (buf : List ℕ)
    → off + 3 ≤ length buf
    → (out : List ℕ) × (store3 off a b c buf ≡ done out)
      × (length out ≡ length buf)
      × (get_elem? out off ≡ some a)
      × (get_elem? out (off + 1) ≡ some b)
      × (get_elem? out (off + 2) ≡ some c)
      × ((j : ℕ) → (j < off) ⊎ (off + 3 ≤ j) → get_elem? out j ≡ get_elem? buf j)
store3_Wrote off a b c buf h =
    let b1 = set buf off a in
    let b2 = set b1 (off + 1) b in
    let l1 : length b1 ≡ length buf = length-set buf off a in
    let l2 : length b2 ≡ length buf = length-set b1 (off + 1) b ∙ l1 in
    (
      set b2 (off + 2) c,
      ground arith,
      length-set b2 (off + 2) c ∙ l2,
      get_elem?-set_ne b2 (off + 2) off c (omega arith)
          ∙ get_elem?-set_ne b1 (off + 1) off b (omega arith)
          ∙ get_elem?-set_self buf off a (omega arith),
      get_elem?-set_ne b2 (off + 2) (off + 1) c (omega arith)
          ∙ get_elem?-set_self b1 (off + 1) b (omega arith),
      get_elem?-set_self b2 (off + 2) c (omega arith),
      λ j o.
          get_elem?-set_ne b2 (off + 2) j c (omega arith)
          ∙ get_elem?-set_ne b1 (off + 1) j b (omega arith)
          ∙ get_elem?-set_ne buf off j a (omega arith),
    )

three :
    (off : ℕ) (out : List ℕ) (k a b c : ℕ)
    → k < 3
    → get_elem? out off ≡ some a
    → get_elem? out (off + 1) ≡ some b
    → get_elem? out (off + 2) ≡ some c
    → get_elem? out (off + k) ≡ some (if k == 0 then a else if k == 1 then b else c)
three off out zero a b c l p q r = let e : off + 0 ≡ off = omega arith in rw e p
three off out (suc zero) a b c l p q r = q
three off out (suc (suc zero)) a b c l p q r = r
three off out (suc (suc (suc k))) a b c l p q r = absurd (omega arith)

pub put_bytes-Wrote :
    (f : PixelFormat) (off : ℕ) (color : Rgb) (buf : List ℕ)
    → off + channels f ≤ length buf
    → (out : List ℕ) × (put_bytes f off color buf ≡ done out) × Wrote f off color buf out
unfolding put_bytes
put_bytes-Wrote PixelFormat.rgb off (r, g, b) buf h =
    let (out, run, size, p0, p1, p2, kept) = store3_Wrote off r g b buf h in
    (
      out,
      run,
      record { size = size; painted = λ k l. three off out k r g b l p0 p1 p2; kept = kept },
    )
put_bytes-Wrote PixelFormat.bgr off (r, g, b) buf h =
    let (out, run, size, p0, p1, p2, kept) = store3_Wrote off b g r buf h in
    (
      out,
      run,
      record { size = size; painted = λ k l. three off out k b g r l p0 p1 p2; kept = kept },
    )
put_bytes-Wrote PixelFormat.gray off (r, g, b) buf h =
    let (run, size, here) = store_lem off r buf (omega arith) in
    (
      set buf off r,
      run,
      record {
        size = size;
        painted = λ k l. let e : off + k ≡ off = omega arith in rw e here;
        kept = λ j o. get_elem?-set_ne buf off j r (omega arith);
      },
    )
put_bytes-Wrote PixelFormat.other off color buf h =
    (buf, refl, record { size = refl; painted = λ k l. absurd (omega arith); kept = λ j o. refl })
