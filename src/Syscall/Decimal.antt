-- ===== src/Syscall/Decimal.antt =====
-- `format!("{}", n)` of a `usize`, which the `inttostr` call of kernel/src/syscall.rs uses.
use lemoncake.Base.{
  ℕ, zero, suc, ◌+◌, ◌*◌, ◌/◌, ◌%◌, ◌^◌, ◌-◌, ◌<◌, ◌≤◌, ltb, if◌then◌else◌, List, [], ◌∷◌, ◌++◌,
  length, word,
}
use lemoncake.Base.{◌≡◌, refl, ◌∙◌, arith, Bool-cases, inl, inr, length-append}
use native.Mathlib.Nat.{pow-suc}

unfoldable pub digits_of : ℕ → ℕ → List ℕ
digits_of zero n = []
digits_of (suc fuel) n =
    let rest = digits_of fuel (n / 10) in
    if ltb n 10 then (0x30 + n) ∷ [] else rest ++ ((0x30 + n % 10) ∷ [])

-- Twenty digits are enough for 64 bits.
unfoldable pub decimal : ℕ → List ℕ
unfolding digits_of
decimal n = digits_of 20 n

-- The number that a string of digits denotes.
unfoldable pub value_from : ℕ → List ℕ → ℕ
value_from acc [] = acc
value_from acc (c ∷ cs) = value_from (acc * 10 + (c - 0x30)) cs

value_from-snoc :
    (acc : ℕ) (cs : List ℕ) (c : ℕ)
    → value_from acc (cs ++ c ∷ []) ≡ value_from acc cs * 10 + (c - 0x30)
unfolding value_from
value_from-snoc acc [] c = refl
value_from-snoc acc (x ∷ cs) c = value_from-snoc (acc * 10 + (x - 0x30)) cs c

value-digits_of : (fuel n : ℕ) → n < 10 ^ fuel → value_from 0 (digits_of fuel n) ≡ n
unfolding digits_of value_from
value-digits_of zero n h = omega (arith, h)
value-digits_of (suc fuel) n h = elim (Bool-cases (ltb n 10)) [
  | inl e ↦ rw e (omega arith)
  | inr e ↦
      let rest = value-digits_of fuel (n / 10) (omega (arith, h, pow-suc 10 fuel)) in
      rw e (value_from-snoc 0 (digits_of fuel (n / 10)) (0x30 + n % 10) ∙ omega (arith, rest))
]

-- The decimal string of a `usize` denotes it.
pub value-decimal : (n : ℕ) → n < word → value_from 0 (decimal n) ≡ n
unfolding decimal
value-decimal n h = value-digits_of 20 n (omega (arith, h))

length-digits_of :
    (fuel n : ℕ) → (0 < fuel → 0 < length (digits_of fuel n)) × (length (digits_of fuel n) ≤ fuel)
unfolding digits_of
length-digits_of zero n = (λ h. h, omega arith)
length-digits_of (suc fuel) n =
    let (some_digit, few) = length-digits_of fuel (n / 10) in
    elim (Bool-cases (ltb n 10)) [
      | inl e ↦ rw e (λ h. omega arith, omega arith)
      | inr e ↦
          rw (e, length-append (digits_of fuel (n / 10)) ((0x30 + n % 10) ∷ []))
            (λ h. omega arith, omega (arith, few))
    ]

pub length-decimal : (n : ℕ) → (0 < length (decimal n)) × (length (decimal n) ≤ 20)
unfolding decimal
length-decimal n = let (a, b) = length-digits_of 20 n in (a (omega arith), b)
