-- ===== src/Base/Text.antt =====
-- Byte strings as lists of numbers: slices with their bounds checks, equality, the position of a
-- byte, and the validity of UTF-8 that `core::str::from_utf8` decides.
use Prim.Native.String.{String}
use Prim.Native.Char.{code}
use Prim.Native.Nat.{ℕ, zero, suc, ◌-◌, ◌≤◌, ◌<◌}
use mathlib.Core.Path.{◌≡◌, refl}
use mathlib.Core.Bool.{Bool, true, false, ◌&&◌}
use mathlib.Core.Option.{Option, none, some}
use mathlib.Core.List.{List, [], ◌∷◌}
use mathlib.Core.Logic.{◌≢◌, inl, inr}
use native.Mathlib.Omega.{arith}
use lemoncake.Base.Tests.{leb, ltb, ◌==◌, if◌then◌else◌, Option-cases, Bool-cases}
use lemoncake.Base.Lists.{length, take, drop, length-take, length-drop}
use lemoncake.Base.Panic.{Run, done, panic}

module _ {A : Type 0} where
  abbrev pub slice_in : ℕ → ℕ → List A → Bool
  slice_in a b xs = leb a b && leb b (length xs)

  abbrev pub cut : ℕ → ℕ → List A → List A
  cut a b xs = take (b - a) (drop a xs)

  -- `xs[a..b]`
  abbrev pub slice : ℕ → ℕ → List A → Run (List A)
  slice a b xs = if slice_in a b xs then done (cut a b xs) else panic

  -- `xs.get(a..b)`
  abbrev pub get_slice : ℕ → ℕ → List A → Option (List A)
  get_slice a b xs = if slice_in a b xs then some (cut a b xs) else none

  pub slice_done :
      (a b : ℕ) (xs : List A) → a ≤ b → b ≤ length xs → slice a b xs ≡ done (cut a b xs)
  slice_done a b xs h k = ground arith

  pub get_slice-some :
      (a b : ℕ) (xs : List A) → a ≤ b → b ≤ length xs → get_slice a b xs ≡ some (cut a b xs)
  get_slice-some a b xs h k = ground arith

  pub length-cut : (a b : ℕ) (xs : List A) → a ≤ b → b ≤ length xs → length (cut a b xs) ≡ b - a
  length-cut a b xs h k = omega (arith, length-take (b - a) (drop a xs), length-drop a xs)

unfoldable pub bytes_eq : List ℕ → List ℕ → Bool
bytes_eq [] [] = true
bytes_eq (x ∷ xs) (y ∷ ys) = (x == y) && bytes_eq xs ys
bytes_eq _ _ = false

pub bytes_eq_sound : (xs ys : List ℕ) → bytes_eq xs ys ≡ true → xs ≡ ys
unfolding bytes_eq
bytes_eq_sound [] [] h = refl
bytes_eq_sound [] (y ∷ ys) h = cc
bytes_eq_sound (x ∷ xs) [] h = cc
bytes_eq_sound (x ∷ xs) (y ∷ ys) h = ground (arith, bytes_eq_sound xs ys)

pub bytes_eq_refl : (xs : List ℕ) → bytes_eq xs xs ≡ true
unfolding bytes_eq
bytes_eq_refl [] = refl
bytes_eq_refl (x ∷ xs) = ground (arith, bytes_eq_refl xs)

pub bytes_eq_ne : (xs ys : List ℕ) → xs ≢ ys → bytes_eq xs ys ≡ false
bytes_eq_ne xs ys ne = elim (Bool-cases (bytes_eq xs ys)) [
  | inl same ↦ absurd (ne (bytes_eq_sound xs ys same))
  | inr other ↦ other
]

-- `iter().position(|&b| b == v)`
unfoldable pub position : ℕ → List ℕ → Option ℕ
position v [] = none
position v (x ∷ xs) =
    let rest = position v xs in
    if x == v then some 0 else elim rest [ none ↦ none | some i ↦ some (suc i) ]

pub position-lt : (v : ℕ) (xs : List ℕ) {i : ℕ} → position v xs ≡ some i → i < length xs
unfolding position
position-lt v [] e = cc
position-lt v (x ∷ xs) {i} e = elim (Option-cases (position v xs)) [
  | inl h ↦ ground arith
  | inr (j, h) ↦ let below = position-lt v xs h in ground arith
]

-- The bytes that may follow a leading byte: how many, and the range of the first of them.
abbrev pub lead : ℕ → Option (ℕ × ℕ × ℕ)
lead b =
    if ltb b 0x80
    then some (0, 0x80, 0xbf)
    else if leb 0xc2 b && leb b 0xdf
    then some (1, 0x80, 0xbf)
    else if b == 0xe0
    then some (2, 0xa0, 0xbf)
    else if b == 0xed
    then some (2, 0x80, 0x9f)
    else if leb 0xe1 b && leb b 0xef
    then some (2, 0x80, 0xbf)
    else if b == 0xf0
    then some (3, 0x90, 0xbf)
    else if leb 0xf1 b && leb b 0xf3
    then some (3, 0x80, 0xbf)
    else if b == 0xf4
    then some (3, 0x80, 0x8f)
    else none

utf8_from : Option (ℕ × ℕ × ℕ) → List ℕ → Bool
utf8_from none bs = false
utf8_from (some (zero, lo, hi)) [] = true
utf8_from (some (suc n, lo, hi)) [] = false
utf8_from (some (zero, lo, hi)) (b ∷ bs) = utf8_from (lead b) bs
utf8_from (some (suc n, lo, hi)) (b ∷ bs) =
    utf8_from (if leb lo b && leb b hi then some (n, 0x80, 0xbf) else none) bs

-- `from_utf8(bytes).is_ok()`
unfoldable pub is_utf8 : List ℕ → Bool
unfolding utf8_from
is_utf8 = utf8_from (some (0, 0x80, 0xbf))

-- The codes of a text's characters. `String` has its own `[]` and `∷`.
abbrev pub codes : String → List ℕ
codes String.[] = []
codes (String.◌∷◌ c s) = code c ∷ codes s
