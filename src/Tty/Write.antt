-- ===== src/Tty/Write.antt =====
-- `write_str` of kernel/src/display.rs on any string: it ends, does not panic, and the cursor stays
-- in the grid.
use lemoncake.Base.{ℕ, zero, suc, ◌+◌, ◌≤◌, ◌<◌, ◌≡◌, inl, inr, refl, ◌∙◌, arith}
use lemoncake.Base.{List, [], ◌∷◌, length, some, done, leb, ◌==◌, ◌&&◌, Bool-cases}
use lemoncake.Tty.Device.{Screen}
use lemoncake.Tty.Ansi.{Item, take_digits, end_code, read_code, next_item, color_of}
use lemoncake.Tty.{Tty, write_item, write_loop, write_str}
use lemoncake.Tty.Valid.{Valid, Draws}
use lemoncake.Tty.Step.{Steps, put_char-Steps, settle-Steps}

take_digits-length : (n : ℕ) (cs : List ℕ) → length (take_digits n cs).1 ≤ length cs
unfolding take_digits
take_digits-length zero cs = omega arith
take_digits-length (suc n) [] = omega arith
take_digits-length (suc n) (c ∷ cs) =
    let shorter = take_digits-length n cs in
    elim (Bool-cases (leb b'0' c && leb c b'9')) [
      | inl digit ↦ rw digit (omega (arith, shorter))
      | inr other ↦ rw other (omega arith)
    ]

end_code-length : (digits rest : List ℕ) → length (end_code digits rest).1 ≤ length rest
unfolding end_code
end_code-length digits [] = omega arith
end_code-length digits (c ∷ rest) = elim (Bool-cases (c == b'm')) [
  | inl e ↦ rw e (omega arith)
  | inr e ↦ rw e (omega arith)
]

read_code-length : (cs : List ℕ) → length (read_code cs).1 ≤ length cs
unfolding read_code
read_code-length cs =
    omega
      (arith, end_code-length (take_digits 3 cs).0 (take_digits 3 cs).1, take_digits-length 3 cs)

-- A round takes a character at least.
next_item-length :
    (c : ℕ) (cs : List ℕ)
    → (item : Item) × (rest : List ℕ) × (next_item (c ∷ cs) ≡ some (item, rest))
      × (length rest ≤ length cs)
unfolding next_item
next_item-length c [] = (Item.char c, [], refl, omega arith)
next_item-length c (d ∷ cs) = elim (Bool-cases (c == 0x1b && d == b'[')) [
  | inl e ↦ ((read_code cs).0, (read_code cs).1, rw e refl, omega (arith, read_code-length cs))
  | inr e ↦ (Item.char c, d ∷ cs, rw e refl, omega arith)
]

module _ (screen : Screen) (draws : Draws screen) where
  open screen use {State}
  open draws use {Good}

  write_item-Steps :
      (item : Item) (t : Tty) (s : State)
      → Valid t
      → Good s
      → Steps screen draws Valid t (write_item screen item (t, s))
  unfolding write_item Steps
  write_item-Steps (Item.color code) t s v g = (
    record t { fg_color = color_of code t.fg_color },
    s,
    refl,
    g,
    record {
      sized = record { wide = v.sized.wide; high = v.sized.high; fits = v.sized.fits };
      in_row = v.in_row;
      in_column = v.in_column;
    },
    refl,
    refl,
  )
  write_item-Steps (Item.char c) t s v g =
      let (t1, s1, run1, g1, m, w1, h1) = put_char-Steps screen draws c t s v g in
      let (t2, s2, run2, g2, v2, w2, h2) = settle-Steps screen draws t1 s1 m g1 in
      (t2, s2, rw run1 run2, g2, v2, w2 ∙ w1, h2 ∙ h1)

  write_loop-Valid :
      (fuel : ℕ) (cs : List ℕ) (t : Tty) (s : State)
      → Valid t
      → length cs < fuel
      → Good s
      → (t' : Tty) × (s' : State) × (write_loop screen fuel cs (t, s) ≡ some (done (t', s')))
        × Good s'
        × Valid t'
        × (t'.width ≡ t.width)
        × (t'.height ≡ t.height)
  unfolding write_loop Steps
  write_loop-Valid zero cs t s v h g = absurd (omega (arith, h))
  write_loop-Valid (suc fuel) [] t s v h g = (t, s, unfold next_item in refl, g, v, refl, refl)
  write_loop-Valid (suc fuel) (c ∷ cs) t s v h g =
      let (item, rest, taken, shorter) = next_item-length c cs in
      let (t1, s1, run1, g1, v1, w1, h1) = write_item-Steps item t s v g in
      let (t2, s2, run2, g2, v2, w2, h2) =
        write_loop-Valid fuel rest t1 s1 v1 (omega (arith, h, shorter)) g1 in
      (t2, s2, rw (taken, write_loop, run1) run2, g2, v2, w2 ∙ w1, h2 ∙ h1)

  -- On a grid that is not empty and fits its buffer, with the cursor in it, over a screen in a good
  -- state, `write_str` of any text ends within its fuel, does not panic, leaves the screen good, the
  -- terminal's size as it was and the cursor in the grid.
  pub write_str-Valid :
      (text : List ℕ) (t : Tty) (s : State)
      → Valid t
      → Good s
      → (t' : Tty) × (s' : State) × (write_str screen text (t, s) ≡ some (done (t', s')))
        × Good s'
        × Valid t'
        × (t'.width ≡ t.width)
        × (t'.height ≡ t.height)
  unfolding write_str
  write_str-Valid text t s v g = write_loop-Valid (length text + 1) text t s v (omega arith) g
