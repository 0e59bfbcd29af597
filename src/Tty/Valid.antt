-- ===== src/Tty/Valid.antt =====
-- Terminals whose grid is not empty and fits its buffer, with the cursor in the grid, over a screen
-- in a good state.
use lemoncake.Base.{ℕ, ◌+◌, ◌-◌, ◌*◌, ◌≤◌, ◌<◌, ◌≡◌, ◌⊎◌, inl, inr, refl, ◌∙◌, arith}
use lemoncake.Base.{
  List, length, get_elem?, get_elem?-some, set, some, get_elem?-set_self, get_elem?-set_ne,
  length-set, Run, done, ◌>>=◌, load,
}
use lemoncake.Base.{for_range, for_range_inv, ◌==◌, Bool-cases, lt→ltb, le→leb}
use lemoncake.Display.{Rgba}
use lemoncake.Tty.Device.{Screen}
use lemoncake.Tty.{
  Cell, Tty, empty, background, shift_row, redraw_cell, clear_if_present, scroll_up, close_up,
}
use lemoncake.Tty.Scroll.{Moved, Moved-none, Moved-step, scroll_cells-Scrolled, Scrolled, row_end}

pub record Sized (t : Tty) : Type 0 where
  pub wide : 0 < t.width
  pub high : 0 < t.height
  pub fits : t.height * t.width ≤ length t.text_buf

pub record Valid (t : Tty) : Type 0 where
  pub sized : Sized t
  pub in_row : t.cursor_x < t.width
  pub in_column : t.cursor_y < t.height

-- What the terminal asks of the screen: in a good state no operation panics, and the next state is
-- good. The screen is only cleared in the colour of the background.
pub record Draws (screen : Screen) : Type 1 where
  pub Good : screen.State → Type 0
  pub draw_char :
      (x y c : ℕ) (color : Rgba) (s : screen.State)
      → Good s
      → (s' : screen.State) × (screen.draw_char x y c color s ≡ done s') × Good s'
  pub clear_screen :
      (s : screen.State)
      → Good s
      → (s' : screen.State) × (screen.clear_screen background s ≡ done s') × Good s'

shift_row-Moved :
    (row_start from n : ℕ) (buf : List Cell)
    → row_start + from + n < length buf
    → (out : List Cell) × (shift_row row_start from n buf ≡ done out)
      × Moved (row_start + from) n 1 buf out
unfolding shift_row
shift_row-Moved row_start from n buf fits =
    let (out, run, p) =
      for_range_inv (λ i b. (from ≤ i) × Moved (row_start + from) (i - from) 1 buf b) _ (from + n)
        (λ i b hi p.
          let x = i - from in
          let here : row_start + i ≡ row_start + from + x = omega (arith, p.0) in
          let next : x + 1 ≡ i + 1 - from = omega (arith, p.0) in
          let (out, run, m) =
            Moved-step (row_start + from) x 1 buf b (omega arith) (omega arith) p.1 in
          (out, rw here run, (omega (arith, p.0), rw next at m)))
        n from buf (omega arith)
        (
          omega arith,
          let z : from - from ≡ 0 = omega arith in rw z (Moved-none (row_start + from) 1 buf),
        ) in
    let e : from + n - from ≡ n = omega arith in (out, run, rw e at p.1)

-- The cursor's row without its cell `x`: what stood behind it moves left by one, and the row ends in
-- an empty cell. No other row changes.
pub record Closed (x : ℕ) (t : Tty) (buf : List Cell) : Type 0 where
  pub size : length buf ≡ length t.text_buf
  pub moved :
      (i : ℕ)
      → t.cursor_y * t.width + x ≤ i
      → i + 1 < t.cursor_y * t.width + t.width
      → get_elem? buf i ≡ get_elem? t.text_buf (i + 1)
  pub emptied : get_elem? buf (t.cursor_y * t.width + t.width - 1) ≡ some (empty t.fg_color)
  pub kept :
      (i : ℕ)
      → (i < t.cursor_y * t.width + x) ⊎ (t.cursor_y * t.width + t.width ≤ i)
      → get_elem? buf i ≡ get_elem? t.text_buf i

module _ (screen : Screen) (draws : Draws screen) where
  open screen use {State, font_height, present}
  open draws use {Good}

  -- A run that ends in a good state of the screen.
  abbrev pub Returns : Run State → Type 0
  Returns r = (s' : State) × (r ≡ done s') × Good s'

  pub clear_if_present-Returns : (s : State) → Good s → Returns (clear_if_present screen s)
  unfolding clear_if_present
  clear_if_present-Returns s g = elim (Bool-cases (present s)) [
    | inl on ↦ let (s', run, g') = draws.clear_screen s g in (s', rw on run, g')
    | inr off ↦ (s, rw off, g)
  ]

  redraw_cell-Returns :
      (t : Tty) (y x : ℕ) (s : State)
      → y * t.width + x < length t.text_buf
      → Good s
      → Returns (redraw_cell screen t y x s)
  unfolding redraw_cell
  redraw_cell-Returns t y x s h g =
      let (cell, e) = get_elem?-some t.text_buf (y * t.width + x) h in
      elim (Bool-cases (cell.ch == 0)) [
        | inl blank ↦ (s, rw (e, blank), g)
        | inr shown ↦
            let (s', run, g') =
              draws.draw_char (x * 8) (y * font_height s) cell.ch cell.color s g in
            (s', rw (e, shown) run, g')
      ]

  -- Redrawing a grid that fits its buffer.
  pub redraw-Returns :
      (t : Tty) (s : State)
      → t.height * t.width ≤ length t.text_buf
      → Good s
      → Returns (for_range t.height 0 (λ y. for_range t.width 0 (redraw_cell screen t y)) s)
  redraw-Returns t s fits g =
      for_range_inv (λ _ s. Good s) _ t.height
        (λ y s hy k.
          for_range_inv (λ _ s. Good s) _ t.width
            (λ x s hx k.
              redraw_cell-Returns t y x s (omega (arith, row_end t.width y t.height hy)) k)
            t.width 0 s (omega arith) k)
        t.height 0 s (omega arith) g

  -- On a grid that is not empty and fits its buffer, over a screen in a good state, `scroll_up`
  -- does not panic, leaves the screen good, and changes nothing of the terminal but the cells:
  -- each row takes the cells of the row below, the last row is empty cells of the text colour,
  -- and what lies behind the grid is kept.
  pub scroll_up-Scrolled :
      (t : Tty) (s : State)
      → Sized t
      → Good s
      → (buf : List Cell) × (s' : State) × (scroll_up screen (t, s)
          ≡ done (record t { text_buf = buf }, s'))
        × Good s'
        × Scrolled t.width t.height t.fg_color t.text_buf buf
  unfolding scroll_up
  scroll_up-Scrolled t s v g =
      let (buf, run, sc) =
        scroll_cells-Scrolled t.width t.height t.fg_color t.text_buf v.wide v.high v.fits in
      let (s1, run1, g1) = clear_if_present-Returns s g in
      let (s2, run2, g2) =
        redraw-Returns (record t { text_buf = buf }) s1 (omega (arith, v.fits, sc.size)) g1 in
      (buf, s2, rw (run, run1, run2), g2, sc)

  -- Drawing the cursor's row again.
  redraw_row-Returns :
      (row_start row w : ℕ) (buf : List Cell) (s : State)
      → row_start + w ≤ length buf
      → Good s
      → Returns (
          for_range w 0
            (λ x s. load (row_start + x) buf >>= λ cell.
              screen.draw_char (x * 8) (row * font_height s) cell.ch cell.color s)
            s)
  redraw_row-Returns row_start row w buf s fits g =
      for_range_inv (λ _ s. Good s) _ w
        (λ x s hx k.
          let (cell, e) = get_elem?-some buf (row_start + x) (omega arith) in
          let (s', r, k') = draws.draw_char (x * 8) (row * font_height s) cell.ch cell.color s k in
          (s', rw e r, k'))
        w 0 s (omega arith) g

  -- On a grid that is not empty and fits its buffer, with the cursor's row and the column `x`
  -- in it, over a screen in a good state, `close_up` does not panic, leaves the screen good, and
  -- changes nothing of the terminal but the cursor's row: the cells behind `x` move left by one and
  -- the last cell is empty.
  pub close_up-Closed :
      (x : ℕ) (t : Tty) (s : State)
      → Sized t
      → x < t.width
      → t.cursor_y < t.height
      → Good s
      → (buf : List Cell) × (s' : State) × (close_up screen x (t, s)
          ≡ done (record t { text_buf = buf }, s'))
        × Good s'
        × Closed x t buf
  unfolding close_up
  close_up-Closed x t s v hx hy g =
      let inside = row_end t.width t.cursor_y t.height hy in
      let start = t.cursor_y * t.width in
      let last = start + t.width - 1 in
      let (mid, run1, m) =
        shift_row-Moved start x (t.width - 1 - x) t.text_buf (omega (arith, v.fits, inside)) in
      let room : last < length mid = omega (arith, v.fits, inside, m.size, v.wide) in
      let buf = set mid last (empty t.fg_color) in
      let size : length buf ≡ length t.text_buf = length-set mid last (empty t.fg_color) ∙ m.size in
      let (s1, run2, g1) = clear_if_present-Returns s g in
      let (s2, run3, g2) =
        redraw_row-Returns start t.cursor_y t.width buf s1 (omega (arith, v.fits, inside, size))
          g1 in
      (
        buf,
        s2,
        rw
            (
              le→leb 1 t.width v.wide,
              run1,
              le→leb 1 (start + t.width) (omega (arith, v.wide)),
              lt→ltb last (length mid) room,
              run2,
              run3,
            )
            refl,
        g2,
        record {
          size = size;
          moved = λ i low high.
              get_elem?-set_ne mid last i (empty t.fg_color) (λ q. omega arith)
              ∙ m.moved i low (omega arith);
          emptied = get_elem?-set_self mid last (empty t.fg_color) room;
          kept = λ i away.
              get_elem?-set_ne mid last i (empty t.fg_color) (λ q. omega (arith, v.wide))
              ∙ m.kept i (omega arith);
        },
      )
