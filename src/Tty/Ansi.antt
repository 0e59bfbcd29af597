-- ===== src/Tty/Ansi.antt =====
-- The escape codes that `write_str` of kernel/src/display.rs reads. A code is ESC, `[`, up to three
-- digits and `m`; where the `m` is missing, what was read behind the ESC is dropped, and the ESC
-- itself is printed.
use lemoncake.Base.{ℕ, zero, suc, ◌+◌, ◌-◌, ◌*◌, ltb, leb, ◌==◌, ◌&&◌, if◌then◌else◌}
use lemoncake.Base.{Option, none, some, List, [], ◌∷◌}
use lemoncake.Display.{Rgba}

-- One round of the loop: a colour code, with its number where digits were given, or a character.
pub data Item : Type 0 where
  color : Option ℕ → Item
  char : ℕ → Item

-- Up to `n` digits, and what is left.
unfoldable pub take_digits : ℕ → List ℕ → List ℕ × List ℕ
take_digits zero cs = ([], cs)
take_digits (suc n) [] = ([], [])
take_digits (suc n) (c ∷ cs) =
    let rest = take_digits n cs in
    if leb b'0' c && leb c b'9' then (c ∷ rest.0, rest.1) else ([], c ∷ cs)

-- `parse::<u8>().unwrap_or(0)` of the digits
unfoldable pub digits_from : ℕ → List ℕ → ℕ
digits_from n [] = n
digits_from n (d ∷ ds) = digits_from (n * 10 + (d - b'0')) ds

unfoldable pub parse_u8 : List ℕ → ℕ
unfolding digits_from
parse_u8 ds = let n = digits_from 0 ds in if ltb n 256 then n else 0

abbrev pub code_of : List ℕ → Option ℕ
code_of [] = none
code_of (d ∷ ds) = some (parse_u8 (d ∷ ds))

-- The test for the `m` behind the digits.
unfoldable pub end_code : List ℕ → List ℕ → Item × List ℕ
end_code digits [] = (Item.char 0x1b, [])
end_code digits (c ∷ rest) =
    if c == b'm' then (Item.color (code_of digits), rest) else (Item.char 0x1b, c ∷ rest)

-- Behind ESC and `[`.
unfoldable pub read_code : List ℕ → Item × List ℕ
unfolding take_digits end_code
read_code cs = let (digits, rest) = take_digits 3 cs in end_code digits rest

unfoldable pub next_item : List ℕ → Option (Item × List ℕ)
unfolding read_code
next_item [] = none
next_item (c ∷ []) = some (Item.char c, [])
next_item (c ∷ d ∷ cs) =
    some (if c == 0x1b && d == b'[' then read_code cs else (Item.char c, d ∷ cs))

abbrev pub white : Rgba
white = (205, 214, 244, 255)

-- The colour that a code selects, of the default colour scheme.
unfoldable pub color_of : Option ℕ → Rgba → Rgba
color_of none fg = white
color_of (some code) fg =
    if code == 30
    then (17, 17, 27, 255)
    else if code == 31
    then (243, 139, 168, 255)
    else if code == 32
    then (166, 227, 161, 255)
    else if code == 33
    then (249, 226, 175, 255)
    else if code == 34
    then (137, 180, 250, 255)
    else if code == 35
    then (203, 166, 247, 255)
    else if code == 36
    then (0, 170, 170, 255)
    else if code == 0
    then white
    else if code == 37
    then white
    else fg
