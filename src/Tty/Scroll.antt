-- ===== src/Tty/Scroll.antt =====
-- The cell loops of `scroll_up`: every row moves up by one, and the last one is emptied.
use lemoncake.Base.{
  ℕ, zero, suc, ◌+◌, ◌-◌, ◌*◌, ◌≤◌, ◌<◌, ◌≡◌, ◌⊎◌, inl, inr, refl, sym, ◌∙◌, arith,
}
use lemoncake.Base.{
  List, length, get_elem?, set, some, length-set, get_elem?-set_self, get_elem?-set_ne,
}
use lemoncake.Base.{get_elem?-some, done, load, store, ◌>>=◌, for_range_inv, ltb}
use lemoncake.Base.{Bool-cases, ltb→lt, ltb_false→le, ==→≡, ==→≢, ◌==◌, lt→ltb, sub_w, le→leb}
use lemoncake.Display.{Rgba}
use lemoncake.Tty.{Cell, empty, copy_row, blank_row, scroll_cells}

pub row_end : (w y h : ℕ) → y < h → y * w + w ≤ h * w
row_end w y h p = grind arith

pred_row : (w y : ℕ) → 0 < y → (y - 1) * w + w ≡ y * w
pred_row w zero p = absurd (omega arith)
pred_row w (suc y) p = grind arith

-- `out` is `buf` with the `n` cells from `base` on read `w` cells further.
pub record Moved (base n w : ℕ) (buf out : List Cell) : Type 0 where
  pub size : length out ≡ length buf
  pub moved : (i : ℕ) → base ≤ i → i < base + n → get_elem? out i ≡ get_elem? buf (i + w)
  pub kept : (i : ℕ) → (i < base) ⊎ (base + n ≤ i) → get_elem? out i ≡ get_elem? buf i

pub Moved-none : (base w : ℕ) (buf : List Cell) → Moved base 0 w buf buf
Moved-none base w buf = record {
  size = refl;
  moved = λ i h k. absurd (omega arith);
  kept = λ i o. refl;
}

-- One more cell.
pub Moved-step :
    (base x w : ℕ) (buf b : List Cell)
    → 0 < w
    → base + x + w < length buf
    → Moved base x w buf b
    → (out : List Cell) × ((load (base + x + w) b >>= λ c. store (base + x) c b) ≡ done out)
      × Moved base (x + 1) w buf out
Moved-step base x w buf b hw h m =
    let (c, e) = get_elem?-some buf (base + x + w) h in
    let read : get_elem? b (base + x + w) ≡ some c =
      m.kept (base + x + w) (inr (omega arith)) ∙ e in
    let room : base + x < length b = omega (arith, m.size) in
    (
      set b (base + x) c,
      rw (read, lt→ltb _ _ room),
      record {
        size = length-set b (base + x) c ∙ m.size;
        moved = λ i low high. elim (Bool-cases (i == base + x)) [
          | inl eq ↦
              let e' : i ≡ base + x = ==→≡ _ _ eq in
              rw e' (get_elem?-set_self b (base + x) c room ∙ sym e)
          | inr ne ↦
              let d = ==→≢ _ _ ne in
              get_elem?-set_ne b (base + x) i c (λ q. d (sym q)) ∙ m.moved i low (omega arith)
        ];
        kept = λ i o. get_elem?-set_ne b (base + x) i c (λ q. omega arith) ∙ m.kept i (omega arith);
      },
    )

module _ (w h : ℕ) (buf : List Cell) (wide : 0 < w) (fits : h * w ≤ length buf) where
  copy_row-Moved :
      (y : ℕ) (b : List Cell)
      → 0 < y
      → y < h
      → length b ≡ length buf
      → (out : List Cell) × (copy_row w y b ≡ done out) × Moved ((y - 1) * w) w w b out
  unfolding copy_row
  copy_row-Moved y b hy hh size =
      for_range_inv (λ x o. Moved ((y - 1) * w) x w b o) _ w
        (λ x o hx m.
          let e : y * w + x ≡ (y - 1) * w + x + w = omega (arith, pred_row w y hy) in
          rw e (
            Moved-step ((y - 1) * w) x w b o wide (omega (arith, pred_row w y hy, row_end w y h hh))
              m))
        w 0 b (omega arith) (Moved-none ((y - 1) * w) w b)

  -- The rows from row 1 up to row `y` have moved up by one.
  record Raised (y : ℕ) (b : List Cell) : Type 0 where
    size : length b ≡ length buf
    moved : (i : ℕ) → i < (y - 1) * w → get_elem? b i ≡ get_elem? buf (i + w)
    kept : (i : ℕ) → (y - 1) * w ≤ i → get_elem? b i ≡ get_elem? buf i

  Raised-step :
      (y : ℕ) (b : List Cell)
      → 0 < y
      → y < h
      → Raised y b
      → (out : List Cell) × (copy_row w y b ≡ done out) × Raised (y + 1) out
  Raised-step y b hy hh r =
      let (out, run, m) = copy_row-Moved y b hy hh r.size in
      let e : y + 1 - 1 ≡ y = omega arith in
      (
        out,
        run,
        record {
          size = m.size ∙ r.size;
          moved = λ i less. elim (Bool-cases (ltb i ((y - 1) * w))) [
            | inl above ↦
                let above' = ltb→lt i ((y - 1) * w) above in
                m.kept i (inl above') ∙ r.moved i above'
            | inr here ↦
                let here' = ltb_false→le i ((y - 1) * w) here in
                let less' : i < y * w = rw e at less in
                m.moved i here' (omega (arith, pred_row w y hy)) ∙ r.kept (i + w) (omega arith)
          ];
          kept = λ i below.
              let below' : y * w ≤ i = rw e at below in
              m.kept i (inr (omega (arith, pred_row w y hy)))
              ∙ r.kept i (omega (arith, pred_row w y hy));
        },
      )

  -- The last row is emptied up to column `x`.
  record Blanked (color : Rgba) (start x : ℕ) (b out : List Cell) : Type 0 where
    size : length out ≡ length b
    blank : (i : ℕ) → start ≤ i → i < start + x → get_elem? out i ≡ some (empty color)
    kept : (i : ℕ) → (i < start) ⊎ (start + x ≤ i) → get_elem? out i ≡ get_elem? b i

  blank_row-Blanked :
      (color : Rgba) (b : List Cell)
      → 0 < h
      → length b ≡ length buf
      → (out : List Cell) × (blank_row w h color b ≡ done out) × Blanked color ((h - 1) * w) w b out
  unfolding blank_row
  blank_row-Blanked color b hh size =
      for_range_inv (λ x o. Blanked color start x b o) _ w step w 0 b (omega arith)
        (record { size = refl; blank = λ i low high. absurd (omega arith); kept = λ i o. refl })
    where
      start : ℕ
      start = (h - 1) * w

      last : start + w ≤ length buf
      last = omega (arith, pred_row w h hh)

      step :
          (x : ℕ) (o : List Cell)
          → x < w
          → Blanked color start x b o
          → (out : List Cell) × ((sub_w h 1 >>= λ last. store (last * w + x) (empty color) o)
              ≡ done out)
            × Blanked color start (x + 1) b out
      step x o hx k =
          let room : start + x < length o = omega (arith, k.size, size, last) in
          (
            set o (start + x) (empty color),
            rw (le→leb 1 h hh, lt→ltb _ _ room),
            record {
              size = length-set o (start + x) (empty color) ∙ k.size;
              blank = λ i low high. elim (Bool-cases (i == start + x)) [
                | inl eq ↦ rw (==→≡ _ _ eq) (get_elem?-set_self o (start + x) (empty color) room)
                | inr ne ↦
                    let d = ==→≢ _ _ ne in
                    get_elem?-set_ne o (start + x) i (empty color) (λ q. d (sym q))
                    ∙ k.blank i low (omega arith)
              ];
              kept = λ i away.
                  get_elem?-set_ne o (start + x) i (empty color) (λ q. omega arith)
                  ∙ k.kept i (omega arith);
            },
          )

-- `out` is `buf` with the rows of a grid moved up by one and the last row emptied.
pub record Scrolled (w h : ℕ) (color : Rgba) (buf out : List Cell) : Type 0 where
  pub size : length out ≡ length buf
  pub moved : (i : ℕ) → i < (h - 1) * w → get_elem? out i ≡ get_elem? buf (i + w)
  pub blank : (i : ℕ) → (h - 1) * w ≤ i → i < h * w → get_elem? out i ≡ some (empty color)
  pub kept : (i : ℕ) → h * w ≤ i → get_elem? out i ≡ get_elem? buf i

-- The cell loops of `scroll_up` on a grid of rows and columns that fits its buffer do not panic, and
-- have the effect of `Scrolled`: every cell comes from the row below, the last row is empty cells of
-- the colour, and what lies behind the grid is kept.
pub scroll_cells-Scrolled :
    (w h : ℕ) (color : Rgba) (buf : List Cell)
    → 0 < w
    → 0 < h
    → h * w ≤ length buf
    → (out : List Cell) × (scroll_cells w h color buf ≡ done out) × Scrolled w h color buf out
unfolding scroll_cells
scroll_cells-Scrolled w h color buf wide high fits =
    let (mid, run1, r) =
      for_range_inv (λ y b. (0 < y) × Raised w h buf wide fits y b) (copy_row w) h
        (λ y b hy k.
          let (out, run, r) = Raised-step w h buf wide fits y b k.0 hy k.1 in
          (out, run, (omega arith, r)))
        (h - 1) 1 buf (omega arith)
        (
          omega arith,
          record { size = refl; moved = λ i less. absurd (omega arith); kept = λ i k. refl },
        ) in
    let (out, run2, k) = blank_row-Blanked w h buf wide fits color mid high r.1.size in
    (
      out,
      rw run1 run2,
      record {
        size = k.size ∙ r.1.size;
        moved = λ i less. k.kept i (inl less) ∙ r.1.moved i less;
        blank = λ i low less. k.blank i low (omega (arith, pred_row w h high));
        kept = λ i far.
            k.kept i (inr (omega (arith, pred_row w h high)))
            ∙ r.1.kept i (omega (arith, pred_row w h high));
      },
    )
