-- ===== src/Tty.antt =====
-- `TTY` of kernel/src/display.rs with the default features: a grid of cells with a cursor, over a
-- screen. A character is its code point. `text_buf` is the static array of 130 * 50 cells.
pub mod Device
pub mod Ansi
pub mod Valid
pub mod Step
pub mod Write
pub mod Scroll
pub mod Faces
mod Tests
use lemoncake.Base.{ℕ, zero, suc, ◌+◌, ◌-◌, ◌*◌, ◌/◌, min, ltb, leb, ◌==◌, ◌||◌, if◌then◌else◌}
use lemoncake.Base.{
  true, false, not, Bool, Option, none, some, List, [], ◌∷◌, map, Run, done, panic, ◌>>=◌,
}
use lemoncake.Base.{sub_w, load, store, for_range, replicate, length}
use lemoncake.Display.{Rgb, Rgba}
use Device.{Screen}
use Ansi.{Item, next_item, color_of}

pub record Cell : Type 0 where
  pub ch : ℕ
  pub color : Rgba

-- `Cell::empty`
abbrev pub empty : Rgba → Cell
empty color = record { ch = 0; color = color }

-- `BACKGROUND`
abbrev pub background : Rgb
background = (30, 30, 46)

pub record Tty : Type 0 where
  pub width : ℕ
  pub height : ℕ
  pub text_buf : List Cell
  pub cursor_x : ℕ
  pub cursor_y : ℕ
  pub fg_color : Rgba

-- `TTY::new` on a screen of the given resolution, with the cells of the static buffer.
pub new : ℕ → ℕ → List Cell → Tty
new width height buffer = record {
  width = min (width / 8) 130;
  height = min (height / 8) 50;
  text_buf = buffer;
  cursor_x = 0;
  cursor_y = 0;
  fg_color = (255, 255, 255, 255);
}

pub get_char : ℕ → ℕ → Tty → Run (Option ℕ)
get_char x y t =
    if leb t.width x || leb t.height y
    then done none
    else load (y * t.width + x) t.text_buf >>= λ c. done (some c.ch)

-- The loops of `scroll_up` over the cells: each row moves up by one, and the last is emptied.
pub copy_row : ℕ → ℕ → List Cell → Run (List Cell)
unfolding for_range
copy_row width y =
    for_range width 0
      λ x buf. do from ← load (y * width + x) buf; store ((y - 1) * width + x) from buf

pub blank_row : ℕ → ℕ → Rgba → List Cell → Run (List Cell)
unfolding for_range
blank_row width height color =
    for_range width 0 λ x buf. do last ← sub_w height 1; store (last * width + x) (empty color) buf

pub scroll_cells : ℕ → ℕ → Rgba → List Cell → Run (List Cell)
unfolding copy_row blank_row for_range
scroll_cells width height color buf =
    for_range (height - 1) 1 (copy_row width) buf >>= blank_row width height color

-- The loop of `delete`: the cells of a row behind the cursor move left by one.
pub shift_row : ℕ → ℕ → ℕ → List Cell → Run (List Cell)
unfolding for_range
shift_row row_start from count =
    for_range count from
      λ x buf. do next ← load (row_start + x + 1) buf; store (row_start + x) next buf

module _ (screen : Screen) where
  open screen use {State, font_height, present, draw_char, clear_screen, draw_smiley, draw_sad_face}

  -- The terminal with its screen.
  abbrev pub World : Type 0
  World = Tty × State

  pub set_char : ℕ → ℕ → ℕ → Rgba → World → Run World
  set_char x y c color (t, s) =
      if leb t.width x then done (t, s) else if leb t.height y then done (t, s) else (do
        buf ← store (y * t.width + x) (record { ch = c; color = color }) t.text_buf
        s' ← draw_char (x * 8) (y * font_height s) c color s
        done (record t { text_buf = buf }, s'))

  -- `if let Some(fb) = FRAMEBUFFER.lock().as_mut()`
  pub clear_if_present : State → Run State
  clear_if_present s = if present s then clear_screen background s else done s

  pub clear_tty : World → Run World
  unfolding clear_if_present
  clear_tty (t, s) = do
    s' ← clear_if_present s
    done (
      record t {
        text_buf = replicate (length t.text_buf) (empty t.fg_color);
        cursor_x = 0;
        cursor_y = 0;
      },
      s',
    )

  -- One cell of the redraw in `scroll_up`.
  pub redraw_cell : Tty → ℕ → ℕ → State → Run State
  redraw_cell t y x s = do
    cell ← load (y * t.width + x) t.text_buf
    if cell.ch == 0 then done s else draw_char (x * 8) (y * font_height s) cell.ch cell.color s

  pub scroll_up : World → Run World
  unfolding scroll_cells clear_if_present redraw_cell for_range
  scroll_up (t, s) = do
    buf ← scroll_cells t.width t.height t.fg_color t.text_buf
    let t' = record t { text_buf = buf }
    s1 ← clear_if_present s
    s2 ← for_range t.height 0 (λ y. for_range t.width 0 (redraw_cell t' y)) s1
    done (t', s2)

  -- The part of `delete` behind its guards: the row is closed up from `x` on and drawn again.
  pub close_up : ℕ → World → Run World
  unfolding shift_row clear_if_present for_range
  close_up x (t, s) = do
    let row_start = t.cursor_y * t.width
    last ← sub_w t.width 1
    shifted ← shift_row row_start x (last - x) t.text_buf
    end ← sub_w (row_start + t.width) 1
    buf ← store end (empty t.fg_color) shifted
    s1 ← clear_if_present s
    s2 ←
        for_range t.width 0
          (λ x s. do
            cell ← load (row_start + x) buf
            draw_char (x * 8) (t.cursor_y * font_height s) cell.ch cell.color s)
          s1
    done (record t { text_buf = buf }, s2)

  pub delete : Bool → World → Run World
  unfolding close_up
  delete bksp (t, s) =
      if leb t.height t.cursor_y
      then done (t, s)
      else if bksp
      then (if t.cursor_x == 0
          then done (t, s)
          else close_up (t.cursor_x - 1) (record t { cursor_x = t.cursor_x - 1 }, s))
      else if leb t.width t.cursor_x
      then done (t, s)
      else close_up t.cursor_x (t, s)

  -- The `match` on a character that begins no colour code.
  pub put_char : ℕ → World → Run World
  unfolding set_char delete
  put_char c (t, s) =
      if c == 0x0a
      then done (record t { cursor_x = 0; cursor_y = t.cursor_y + 1 }, s)
      else if c == 0x0d
      then done (record t { cursor_x = 0 }, s)
      else if c == 0x08
      then delete true (t, s)
      else if c == 0x7f
      then delete false (t, s)
      else (do
        (t', s') ← set_char t.cursor_x t.cursor_y c t.fg_color (t, s)
        done (record t' { cursor_x = t'.cursor_x + 1 }, s'))

  abbrev pub wrap_x : Tty → Tty
  wrap_x t =
      if leb t.width t.cursor_x then record t { cursor_x = 0; cursor_y = t.cursor_y + 1 } else t

  -- Below the last row the rows move up, and the cursor stays in the last.
  pub keep_row : World → Run World
  unfolding scroll_up
  keep_row (t, s) =
      if leb t.height t.cursor_y
      then (do
        (t2, s2) ← scroll_up (t, s)
        y ← sub_w t2.height 1
        done (record t2 { cursor_y = y }, s2))
      else done (t, s)

  -- What follows each character: the cursor goes to the next row, and the rows move up.
  pub settle : World → Run World
  unfolding keep_row
  settle (t, s) = keep_row (wrap_x t, s)

  pub write_item : Item → World → Run World
  unfolding put_char settle
  write_item (Item.color code) (t, s) = done (record t { fg_color = color_of code t.fg_color }, s)
  write_item (Item.char c) w = put_char c w >>= settle

  -- The loop of `write_str`; `none` means that the fuel ran out.
  pub write_loop : ℕ → List ℕ → World → Option (Run World)
  unfolding write_item
  write_loop zero cs w = none
  write_loop (suc fuel) cs w = elim (next_item cs) [
    | none ↦ some (done w)
    | some (item, rest) ↦ elim (write_item item w) [
      | panic ↦ some panic
      | done w' ↦ write_loop fuel rest w'
    ]
  ]

  -- Each round takes at least one character.
  pub write_str : List ℕ → World → Option (Run World)
  unfolding write_loop
  write_str cs w = write_loop (length cs + 1) cs w

  -- `yay` and `sad`, which differ in the face that they draw.
  abbrev pub advance : Tty → Tty
  advance t =
      let t1 = wrap_x (record t { cursor_x = t.cursor_x + 1 }) in
      if leb t1.height t1.cursor_y then record t1 { cursor_y = 0 } else t1

  abbrev pub or_fg : Option Rgba → Tty → Rgba
  or_fg none t = t.fg_color
  or_fg (some color) t = color

  pub yay : Option Rgba → World → Run World
  yay color (t, s) =
      if present s
      then (do
        s' ←
            draw_smiley (t.cursor_x * 8) (t.cursor_y * font_height s + font_height s / 4)
              (or_fg color t) s
        done (advance t, s'))
      else done (t, s)

  pub sad : Option Rgba → World → Run World
  sad color (t, s) =
      if present s
      then (do
        s' ←
            draw_sad_face (t.cursor_x * 8) (t.cursor_y * font_height s + font_height s / 4)
              (or_fg color t) s
        done (advance t, s'))
      else done (t, s)
