-- ===== src/Tty/Step.antt =====
-- What a character does to the terminal of kernel/src/display.rs: `delete`, `put_char` and the wrap of
-- the cursor keep it in the grid.
use lemoncake.Base.{ℕ, ◌+◌, ◌-◌, ◌*◌, ◌≤◌, ◌<◌, ◌≡◌, ◌⊎◌, inl, inr, refl, arith, Bool, true, false}
use lemoncake.Base.{List, length, set, Run, done, length-set, leb, ◌==◌, Bool-cases}
use lemoncake.Base.{lt→ltb, gt→leb_false, le→leb}
use lemoncake.Tty.Device.{Screen}
use lemoncake.Tty.{Cell, Tty, set_char, delete, close_up, put_char, keep_row, settle}
use lemoncake.Tty.Scroll.{row_end}
use lemoncake.Tty.Valid.{Sized, Valid, Draws, scroll_up-Scrolled, close_up-Closed}

-- A terminal between a character and what follows it: the cursor is in the grid, or just behind a
-- row, or just below the last row.
pub record Midway (t : Tty) : Type 0 where
  pub sized : Sized t
  pub place :
      ((t.cursor_x < t.width) × (t.cursor_y ≤ t.height))
      ⊎ ((t.cursor_x ≤ t.width) × (t.cursor_y < t.height))

module _ (screen : Screen) (draws : Draws screen) where
  open screen use {State}
  open draws use {Good}

  -- A result with a good screen and a terminal that `P` holds of, with the grid of `t`.
  unfoldable pub Steps : (Tty → Type 0) → Tty → Run (Tty × State) → Type 0
  Steps P t r =
      (t' : Tty) × (s' : State) × (r ≡ done (t', s'))
      × Good s'
      × P t'
      × (t'.width ≡ t.width)
      × (t'.height ≡ t.height)

  closed :
      (x : ℕ) (t : Tty) (s : State)
      → Valid t
      → x < t.width
      → Good s
      → (buf : List Cell) × (s' : State) × (close_up screen x (t, s)
          ≡ done (record t { text_buf = buf }, s'))
        × Good s'
        × (length buf ≡ length t.text_buf)
  closed x t s v hx g =
      let (buf, s', run, g', c) = close_up-Closed screen draws x t s v.sized hx v.in_column g in
      (buf, s', run, g', c.size)

  delete-Steps :
      (bksp : Bool) (t : Tty) (s : State)
      → Valid t
      → Good s
      → Steps Valid t (delete screen bksp (t, s))
  unfolding delete Steps
  delete-Steps true t s v g = elim (Bool-cases (t.cursor_x == 0)) [
    | inl e ↦ (t, s, rw (gt→leb_false t.height t.cursor_y v.in_column, e) refl, g, v, refl, refl)
    | inr e ↦
        let t1 : Tty = record t { cursor_x = t.cursor_x - 1 } in
        let v1 : Valid t1 = record {
          sized = record { wide = v.sized.wide; high = v.sized.high; fits = v.sized.fits };
          in_row = omega (arith, v.in_row);
          in_column = v.in_column;
        } in
        let (buf, s', run, g', size) = closed (t.cursor_x - 1) t1 s v1 v1.in_row g in
        (
          record t1 { text_buf = buf },
          s',
          rw (gt→leb_false t.height t.cursor_y v.in_column, e) run,
          g',
          record {
            sized = record {
              wide = v.sized.wide;
              high = v.sized.high;
              fits = omega (arith, v.sized.fits, size);
            };
            in_row = v1.in_row;
            in_column = v.in_column;
          },
          refl,
          refl,
        )
  ]
  delete-Steps false t s v g =
      let (buf, s', run, g', size) = closed t.cursor_x t s v v.in_row g in
      (
        record t { text_buf = buf },
        s',
        rw (gt→leb_false t.height t.cursor_y v.in_column, gt→leb_false t.width t.cursor_x v.in_row)
            run,
        g',
        record {
          sized = record {
            wide = v.sized.wide;
            high = v.sized.high;
            fits = omega (arith, v.sized.fits, size);
          };
          in_row = v.in_row;
          in_column = v.in_column;
        },
        refl,
        refl,
      )

  keep_row-Steps :
      (t : Tty) (s : State)
      → Sized t
      → t.cursor_x < t.width
      → t.cursor_y ≤ t.height
      → Good s
      → Steps Valid t (keep_row screen (t, s))
  unfolding keep_row Steps
  keep_row-Steps t s v hx hy g = elim (Bool-cases (leb t.height t.cursor_y)) [
    | inr e ↦
        let below : t.cursor_y < t.height = ground arith in
        (t, s, rw e refl, g, record { sized = v; in_row = hx; in_column = below }, refl, refl)
    | inl e ↦
        let (buf, s', run, g', c) = scroll_up-Scrolled screen draws t s v g in
        (
          record t { text_buf = buf; cursor_y = t.height - 1 },
          s',
          rw (e, run, le→leb 1 t.height v.high) refl,
          g',
          record {
            sized = record { wide = v.wide; high = v.high; fits = omega (arith, v.fits, c.size) };
            in_row = hx;
            in_column = omega (arith, v.high);
          },
          refl,
          refl,
        )
  ]

  pub settle-Steps :
      (t : Tty) (s : State) → Midway t → Good s → Steps Valid t (settle screen (t, s))
  unfolding settle Steps
  settle-Steps t s m g = elim (Bool-cases (leb t.width t.cursor_x)) [
    | inl e ↦
        let t1 : Tty = record t { cursor_x = 0; cursor_y = t.cursor_y + 1 } in
        let (t', s', run, g', v, w, h) =
          keep_row-Steps t1 s
            (record { wide = m.sized.wide; high = m.sized.high; fits = m.sized.fits }) m.sized.wide
            (ground arith) g in
        (t', s', rw e run, g', v, w, h)
    | inr e ↦
        let (t', s', run, g', v, w, h) =
          keep_row-Steps t s m.sized (ground arith) (ground arith) g in
        (t', s', rw e run, g', v, w, h)
  ]

  -- A character that is none of the four that `put_char` tells apart.
  plain-Steps :
      (c : ℕ) (t : Tty) (s : State)
      → Valid t
      → Good s
      → (c == 0x0a) ≡ false
      → (c == 0x0d) ≡ false
      → (c == 0x08) ≡ false
      → (c == 0x7f) ≡ false
      → Steps Midway t (put_char screen c (t, s))
  unfolding put_char Steps set_char
  plain-Steps c t s v g n1 n2 n3 n4 =
      let (s', run, g') =
        draws.draw_char (t.cursor_x * 8) (t.cursor_y * screen.font_height s) c t.fg_color s g in
      let i = t.cursor_y * t.width + t.cursor_x in
      let cell : Cell = record { ch = c; color = t.fg_color } in
      let room = row_end t.width t.cursor_y t.height v.in_column in
      (
        record t { text_buf = set t.text_buf i cell; cursor_x = t.cursor_x + 1 },
        s',
        rw
            (
              n1,
              n2,
              n3,
              n4,
              gt→leb_false t.width t.cursor_x v.in_row,
              gt→leb_false t.height t.cursor_y v.in_column,
              lt→ltb i (length t.text_buf) (omega (arith, room, v.in_row, v.sized.fits)),
              run,
            )
            refl,
        g',
        record {
          sized = record {
            wide = v.sized.wide;
            high = v.sized.high;
            fits = omega (arith, v.sized.fits, length-set t.text_buf i cell);
          };
          place = inr (omega (arith, v.in_row), v.in_column);
        },
        refl,
        refl,
      )

  pub put_char-Steps :
      (c : ℕ) (t : Tty) (s : State) → Valid t → Good s → Steps Midway t (put_char screen c (t, s))
  unfolding put_char Steps
  put_char-Steps c t s v g = elim (Bool-cases (c == 0x0a)) [
    | inl e ↦ (
      record t { cursor_x = 0; cursor_y = t.cursor_y + 1 },
      s,
      rw e refl,
      g,
      record {
        sized = record { wide = v.sized.wide; high = v.sized.high; fits = v.sized.fits };
        place = inl (v.sized.wide, omega (arith, v.in_column));
      },
      refl,
      refl,
    )
    | inr n1 ↦ elim (Bool-cases (c == 0x0d)) [
      | inl e ↦ (
        record t { cursor_x = 0 },
        s,
        rw (n1, e) refl,
        g,
        record {
          sized = record { wide = v.sized.wide; high = v.sized.high; fits = v.sized.fits };
          place = inr (omega arith, v.in_column);
        },
        refl,
        refl,
      )
      | inr n2 ↦ elim (Bool-cases (c == 0x08)) [
        | inl e ↦
            let (t', s', run, g', v', w, h) = delete-Steps true t s v g in
            (t', s', rw (n1, n2, e) run, g', midway t' v', w, h)
        | inr n3 ↦ elim (Bool-cases (c == 0x7f)) [
          | inl e ↦
              let (t', s', run, g', v', w, h) = delete-Steps false t s v g in
              (t', s', rw (n1, n2, n3, e) run, g', midway t' v', w, h)
          | inr n4 ↦ plain-Steps c t s v g n1 n2 n3 n4
        ]
      ]
    ]
  ]
    where
      midway : (t' : Tty) → Valid t' → Midway t'
      midway t' v' = record {
        sized = v'.sized;
        place = inr (omega (arith, v'.in_row), v'.in_column);
      }
