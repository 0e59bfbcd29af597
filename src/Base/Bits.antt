-- ===== src/Base/Bits.antt =====
-- Laws of `&` and `|` at variables: low masks, high masks, and the union of disjoint fields.
use Prim.Native.Nat.{ℕ, zero, suc, ◌+◌, ◌-◌, ◌*◌, ◌/◌, ◌%◌, ◌^◌, ◌≤◌, ◌<◌, min, max}
use Prim.Native.Nat.{bit_and, bit_or, digits, bit_and-bitwise, bit_or-bitwise}
use mathlib.Core.Path.{◌≡◌, refl, sym, ap, ◌∙◌}
use native.Mathlib.Omega.{arith}
use native.Mathlib.Nat.{
  mul_comm, div-div-eq-div-mul, pow-suc, one-le-pow, div-add-mod', mod-lt, add-zero, add-suc,
}

module _ (f : ℕ → ℕ) (g : ℕ → ℕ → ℕ) where
  -- The digit recursion does not depend on its fuel, once there is enough.
  same_digits :
      (fuel x : ℕ)
      → x ≤ fuel
      → (more : ℕ) → x ≤ more
      → (y : ℕ) → digits f g fuel x y ≡ digits f g more x y
  same_digits (suc fuel) (suc x) le (suc more) le' y =
      omega
        (arith, same_digits fuel (suc x / 2) (omega (arith, le)) more (omega (arith, le')) (y / 2))
  same_digits (suc fuel) (suc x) le zero le' y = absurd (omega (arith, le'))
  same_digits (suc fuel) zero le (suc more) le' y = refl
  same_digits (suc fuel) zero le zero le' y = refl
  same_digits zero (suc x) le more le' y = absurd (omega (arith, le))
  same_digits zero zero le (suc more) le' y = refl
  same_digits zero zero le zero le' y = refl

zero-bit_and : (b : ℕ) → bit_and 0 b ≡ 0
zero-bit_and b = bit_and-bitwise 0 b

zero-bit_or : (b : ℕ) → bit_or 0 b ≡ b
zero-bit_or b = bit_or-bitwise 0 b

-- The law for the lowest digit.
bit_and_low : (a b : ℕ) → bit_and a b ≡ bit_and (a / 2) (b / 2) * 2 + min (a % 2) (b % 2)
bit_and_low zero b = omega (arith, zero-bit_and b, zero-bit_and (b / 2))
bit_and_low (suc a) b = omega (
  arith,
  bit_and-bitwise (suc a) b,
  bit_and-bitwise (suc a / 2) (b / 2),
  same_digits (λ b. zero) min a (suc a / 2) (omega arith) (suc a / 2) (omega arith) (b / 2),
)

bit_or_low : (a b : ℕ) → bit_or a b ≡ bit_or (a / 2) (b / 2) * 2 + max (a % 2) (b % 2)
bit_or_low zero b = omega (arith, zero-bit_or b, zero-bit_or (b / 2))
bit_or_low (suc a) b = omega (
  arith,
  bit_or-bitwise (suc a) b,
  bit_or-bitwise (suc a / 2) (b / 2),
  same_digits (λ b. b) max a (suc a / 2) (omega arith) (suc a / 2) (omega arith) (b / 2),
)

-- With no bit on the right.
no_bits : (limit x : ℕ) → x ≤ limit → (bit_and x 0 ≡ 0) × (bit_or x 0 ≡ x)
no_bits limit zero small = (refl, refl)
no_bits zero (suc x) small = absurd (omega arith)
no_bits (suc limit) (suc x) small =
    let (both, either) = no_bits limit (suc x / 2) (omega (arith, small)) in
    (omega (arith, bit_and_low (suc x) 0, both), omega (arith, bit_or_low (suc x) 0, either))

pub bit_and-zero : (x : ℕ) → bit_and x 0 ≡ 0
bit_and-zero x = let (both, _) = no_bits x x (omega arith) in both

pub bit_or-zero : (x : ℕ) → bit_or x 0 ≡ x
bit_or-zero x = let (_, either) = no_bits x x (omega arith) in either

double-pow : (q k : ℕ) → q * 2 ^ suc k ≡ 2 * (q * 2 ^ k)
double-pow q k = omega (arith, ap (λ (t : ℕ). q * t) (pow-suc 2 k))

-- A low mask keeps the low field.
pub mask_low : (k q r : ℕ) → r < 2 ^ k → bit_and (q * 2 ^ k + r) (2 ^ k - 1) ≡ r
mask_low zero q r h = ground (arith, bit_and-zero (q * 1 + r))
mask_low (suc k) q r h = ground (
  arith,
  bit_and_low (q * 2 ^ suc k + r) (2 ^ suc k - 1),
  double-pow q k,
  pow-suc 2 k,
  one-le-pow k 2,
  mask_low k q (r / 2),
)

-- A mask of `n` ones above `k` zeros clears the low field.
pub mask_high :
    (k n q r : ℕ)
    → r < 2 ^ k
    → q < 2 ^ n
    → bit_and (q * 2 ^ k + r) ((2 ^ n - 1) * 2 ^ k) ≡ q * 2 ^ k
mask_high zero n q r h hq = ground (arith, mask_low n 0 q hq)
mask_high (suc k) n q r h hq = ground (
  arith,
  bit_and_low (q * 2 ^ suc k + r) ((2 ^ n - 1) * 2 ^ suc k),
  double-pow q k,
  double-pow (2 ^ n - 1) k,
  pow-suc 2 k,
  mask_high k n q (r / 2),
)

-- Disjoint fields join by addition.
pub join_fields : (k q r : ℕ) → r < 2 ^ k → bit_or (q * 2 ^ k) r ≡ q * 2 ^ k + r
join_fields zero q r h = ground (arith, bit_or-zero q)
join_fields (suc k) q r h =
    ground
      (arith, bit_or_low (q * 2 ^ suc k) r, double-pow q k, pow-suc 2 k, join_fields k q (r / 2))

pub and_low : (k x : ℕ) → bit_and x (2 ^ k - 1) ≡ x % 2 ^ k
and_low k x = ground (arith, one-le-pow k 2, mask_low k (x / 2 ^ k) (x % 2 ^ k))

pub and_high : (k n x : ℕ) → x / 2 ^ k < 2 ^ n → bit_and x ((2 ^ n - 1) * 2 ^ k) ≡ x / 2 ^ k * 2 ^ k
and_high k n x h = ground (arith, one-le-pow k 2, mask_high k n (x / 2 ^ k) (x % 2 ^ k))

-- One bit.
pub mask_bit :
    (k q b r : ℕ) → b < 2 → r < 2 ^ k → bit_and ((2 * q + b) * 2 ^ k + r) (2 ^ k) ≡ b * 2 ^ k
mask_bit zero q b r hb h = ground (arith, bit_and_low (2 * q + b) 1, bit_and-zero ((2 * q + b) / 2))
mask_bit (suc k) q b r hb h = ground (
  arith,
  bit_and_low ((2 * q + b) * 2 ^ suc k + r) (2 ^ suc k),
  double-pow (2 * q + b) k,
  double-pow b k,
  pow-suc 2 k,
  mask_bit k q b (r / 2),
)

pub and_bit : (k x : ℕ) → bit_and x (2 ^ k) ≡ x / 2 ^ k % 2 * 2 ^ k
and_bit k x =
    ap (λ t. bit_and t (2 ^ k)) (sym split)
    ∙ mask_bit k (x / 2 ^ k / 2) (x / 2 ^ k % 2) (x % 2 ^ k) (omega arith)
        (mod-lt x (one-le-pow k 2 (omega arith)))
  where
    half : 2 * (x / 2 ^ k / 2) + x / 2 ^ k % 2 ≡ x / 2 ^ k
    half = omega arith

    split : (2 * (x / 2 ^ k / 2) + x / 2 ^ k % 2) * 2 ^ k + x % 2 ^ k ≡ x
    split = rw half (div-add-mod' x (2 ^ k))

pub pow-add : (k n : ℕ) → 2 ^ (k + n) ≡ 2 ^ k * 2 ^ n
pow-add k zero = ap (λ t. 2 ^ t) (add-zero k) ∙ omega arith
pow-add k (suc n) =
    ap (λ t. 2 ^ t) (add-suc k n)
    ∙ omega (
      arith,
      pow-suc 2 (k + n),
      pow-suc 2 n,
      pow-add k n,
      ap (λ (t : ℕ). t * 2) (pow-add k n),
      ap (λ (t : ℕ). 2 ^ k * t) (pow-suc 2 n),
    )

half-div : (x k : ℕ) → x / 2 ^ suc k ≡ x / 2 / 2 ^ k
half-div x k =
    ap (λ t. x / t) (pow-suc 2 k ∙ mul_comm (2 ^ k) 2) ∙ sym (div-div-eq-div-mul x 2 (2 ^ k))

-- A mask of `n` ones above `k` zeros keeps the field that stands there.
pub mask_mid : (k n x : ℕ) → bit_and x ((2 ^ n - 1) * 2 ^ k) ≡ x / 2 ^ k % 2 ^ n * 2 ^ k
mask_mid zero n x = ground (arith, and_low n x)
mask_mid (suc k) n x = ground (
  arith,
  bit_and_low x ((2 ^ n - 1) * 2 ^ suc k),
  double-pow (2 ^ n - 1) k,
  double-pow (x / 2 / 2 ^ k % 2 ^ n) k,
  pow-suc 2 k,
  half-div x k,
  mask_mid k n (x / 2),
)

-- Numbers of two fields that are split at the same bit.
pub and_fields :
    (k q r p t : ℕ)
    → r < 2 ^ k
    → t < 2 ^ k
    → bit_and (q * 2 ^ k + r) (p * 2 ^ k + t) ≡ bit_and q p * 2 ^ k + bit_and r t
and_fields zero q r p t hr ht = ground (arith, bit_and-zero 0)
and_fields (suc k) q r p t hr ht = ground (
  arith,
  bit_and_low (q * 2 ^ suc k + r) (p * 2 ^ suc k + t),
  bit_and_low r t,
  double-pow q k,
  double-pow p k,
  double-pow (bit_and q p) k,
  pow-suc 2 k,
  and_fields k q (r / 2) p (t / 2),
)

pub or_fields :
    (k q r p t : ℕ)
    → r < 2 ^ k
    → t < 2 ^ k
    → bit_or (q * 2 ^ k + r) (p * 2 ^ k + t) ≡ bit_or q p * 2 ^ k + bit_or r t
or_fields zero q r p t hr ht = ground (arith, bit_or-zero 0)
or_fields (suc k) q r p t hr ht = ground (
  arith,
  bit_or_low (q * 2 ^ suc k + r) (p * 2 ^ suc k + t),
  bit_or_low r t,
  double-pow q k,
  double-pow p k,
  double-pow (bit_or q p) k,
  pow-suc 2 k,
  or_fields k q (r / 2) p (t / 2),
)

bit_or-one : (b : ℕ) → b < 2 → bit_or b 1 ≡ 1
bit_or-one zero h = refl
bit_or-one (suc zero) h = refl
bit_or-one (suc (suc b)) h = absurd (omega arith)

pub set_low : (q b : ℕ) → b < 2 → bit_or (q * 2 + b) 1 ≡ q * 2 + 1
set_low q b h = ground (arith, or_fields 1 q b 0 1, bit_or-zero q, bit_or-one b)

-- One bit is set, and the others are kept.
pub set_bit :
    (k q b r : ℕ)
    → b < 2
    → r < 2 ^ k
    → bit_or ((q * 2 + b) * 2 ^ k + r) (2 ^ k) ≡ (q * 2 + 1) * 2 ^ k + r
set_bit k q b r hb hr =
    ground (arith, or_fields k (q * 2 + b) r 1 0, set_low q b, bit_or-zero r, one-le-pow k 2)
