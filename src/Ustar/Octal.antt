-- ===== src/Ustar/Octal.antt =====
-- The octal size field of a header: what is printed is read back, and sums cannot overflow.
use lemoncake.Base.{ℕ, zero, suc, ◌+◌, ◌-◌, ◌*◌, ◌/◌, ◌%◌, ◌^◌, ◌≤◌, ◌<◌, ◌≡◌, ◌∙◌, ap}
use lemoncake.Base.{arith, List, [], ◌∷◌, ◌++◌, length, Bool-cases, inl, inr, false, leb, ◌&&◌}
use lemoncake.Ustar.{oct2bin_from, oct2bin}
use mathlib.Core.List.{append_assoc}
use native.Mathlib.Nat.{pow-suc, one-le-pow}

-- `k` octal digits of `n`, the highest first, as tar writes them.
pub to_octal : ℕ → ℕ → List ℕ
to_octal zero n = []
to_octal (suc k) n = to_octal k (n / 8) ++ (b'0' + n % 8) ∷ []

-- What ends the digits: nothing, or a byte that is no decimal digit.
abbrev pub Ends : List ℕ → Type 0
Ends [] = Unit
Ends (x ∷ xs) = (leb b'0' x && leb x b'9') ≡ false

oct2bin_from-digit :
    (r d : ℕ) (rest : List ℕ)
    → d < 8
    → oct2bin_from r ((b'0' + d) ∷ rest) ≡ oct2bin_from (r * 8 + d) rest
unfolding oct2bin_from
oct2bin_from-digit r d rest h = let e : b'0' + d - b'0' ≡ d = omega arith in rw e (ground arith)

oct2bin_from-to_octal :
    (k n r : ℕ) (rest : List ℕ)
    → n < 8 ^ k
    → oct2bin_from r (to_octal k n ++ rest) ≡ oct2bin_from (r * 8 ^ k + n) rest
unfolding to_octal
oct2bin_from-to_octal zero n r rest h = ap (λ t. oct2bin_from t rest) (omega arith)
oct2bin_from-to_octal (suc k) n r rest h =
    ap (oct2bin_from r) (append_assoc (to_octal k (n / 8)) ((b'0' + n % 8) ∷ []) rest)
    ∙ oct2bin_from-to_octal k (n / 8) r ((b'0' + n % 8) ∷ rest) (omega (arith, pow-suc 8 k))
    ∙ oct2bin_from-digit (r * 8 ^ k + n / 8) (n % 8) rest (omega arith)
    ∙ ap (λ t. oct2bin_from t rest)
        (omega (arith, pow-suc 8 k, ap (λ (t : ℕ). r * t) (pow-suc 8 k)))

-- A number below 8^k, written in k octal digits before the end of the field or a byte that is no
-- digit, is read back.
oct2bin-to_octal :
    (k n : ℕ) (rest : List ℕ) → n < 8 ^ k → Ends rest → oct2bin (to_octal k n ++ rest) ≡ n
unfolding oct2bin
oct2bin-to_octal k n [] h e = oct2bin_from-to_octal k n 0 [] h ∙ unfold oct2bin_from in omega arith
oct2bin-to_octal k n (x ∷ rest) h e =
    oct2bin_from-to_octal k n 0 (x ∷ rest) h ∙ unfold oct2bin_from in rw e (omega arith)

le-mul : (a b c : ℕ) → a ≤ b → a * c ≤ b * c
le-mul a b c h = grind arith

oct2bin_from_bound : (r : ℕ) (xs : List ℕ) → oct2bin_from r xs + 2 ≤ (r + 2) * 8 ^ length xs
unfolding oct2bin_from
oct2bin_from_bound r [] = omega arith
oct2bin_from_bound r (x ∷ xs) = elim (Bool-cases (leb b'0' x && leb x b'9')) [
  | inl digit ↦ rw digit (
      omega (
        arith,
        oct2bin_from_bound (r * 8 + (x - b'0')) xs,
        le-mul (r * 8 + (x - b'0') + 2) ((r + 2) * 8) (8 ^ length xs) (ground arith),
        times,
      ))
  | inr other ↦ rw other (
      omega (
        arith,
        le-mul 1 (8 ^ suc (length xs)) (r + 2) (one-le-pow (suc (length xs)) 8 (omega arith)),
      ))
]
  where
    times : (r + 2) * 8 ^ suc (length xs) ≡ (r + 2) * 8 * 8 ^ length xs
    times = omega (arith, ap (λ (t : ℕ). (r + 2) * t) (pow-suc 8 (length xs)))

-- The value of a size field of 11 bytes, so that no sum with an offset overflows.
pub size_field_bound : (xs : List ℕ) → length xs ≡ 11 → oct2bin xs < 2 ^ 34
unfolding oct2bin
size_field_bound xs h =
    let b = oct2bin_from_bound 0 xs in
    let c : oct2bin_from 0 xs + 2 ≤ 2 * 8 ^ 11 = rw h at b in omega arith
