-- ===== src/Allocator/Layout.antt =====
-- `align_up` of kernel/src/allocator/mod.rs, and the parts of `core::alloc::Layout` that the
-- allocators call. An address is a `usize`; the null pointer is 0.
use lemoncake.Base.{ℕ, zero, suc, ◌+◌, ◌-◌, ◌*◌, ◌/◌, ◌%◌, ◌^◌, ◌≤◌, ◌<◌, max, ◌≡◌, arith}
use lemoncake.Base.{
  bit_and, and_high, pow-add, ap, ◌∙◌, sym, word, add_w, sub_w, not_w, Run, done, ◌>>=◌,
}
use lemoncake.Base.{ltb, ◌==◌, ◌||◌, not, if◌then◌else◌, Option, none, some}
use native.Mathlib.Nat.{one-le-pow, div-add-mod', mod-lt, mul-mod_left, div-lt_iff_lt-mul}

pub record Layout : Type 0 where
  pub size : ℕ
  pub align : ℕ

abbrev pub null : ℕ
null = 0

-- `(addr + align - 1) & !(align - 1)`
unfoldable pub align_up : ℕ → ℕ → Run ℕ
align_up addr align = do
  a ← add_w 64 addr align
  b ← sub_w a 1
  m ← sub_w align 1
  done (bit_and b (not_w 64 m))

-- What rounding up means, with no bit operation.
abbrev pub ceil_to : ℕ → ℕ → ℕ
ceil_to addr align = (addr + align - 1) / align * align

-- What a rounded address is: the multiple that begins less than `align` later.
pub record IsCeil (addr align up : ℕ) : Type 0 where
  pub above : addr ≤ up
  pub close : up < addr + align
  pub aligned : up % align ≡ 0

pred-mul : (a b : ℕ) → (a - 1) * b ≡ a * b - b
pred-mul zero b = omega arith
pred-mul (suc a) b = grind arith

-- The mask `!(align - 1)` for a power of two.
mask_eq : (k n : ℕ) → k + n ≡ 64 → 2 ^ 64 - 1 - (2 ^ k - 1) ≡ (2 ^ n - 1) * 2 ^ k
mask_eq k n h = omega (
  arith,
  sym (ap (λ t. 2 ^ t) h) ∙ pow-add k n,
  one-le-pow k 2,
  one-le-pow n 2,
  pred-mul (2 ^ n) (2 ^ k),
)

quotient_lt : (k n b : ℕ) → k + n ≡ 64 → b < word → b / 2 ^ k < 2 ^ n
quotient_lt k n b h hb =
    (div-lt_iff_lt-mul (one-le-pow k 2 (omega arith))).1
      (omega (arith, sym (ap (λ t. 2 ^ t) h) ∙ pow-add k n))

-- For an alignment 2^k with k at most 64 and a sum of address and alignment below 2^64, the bit
-- trick does not overflow and rounds up.
pub align_up_lem :
    (addr k : ℕ)
    → k ≤ 64
    → addr + 2 ^ k < word
    → align_up addr (2 ^ k) ≡ done (ceil_to addr (2 ^ k))
unfolding align_up
align_up_lem addr k hk h = ground (
  arith,
  one-le-pow k 2,
  mask_eq k (64 - k),
  ap (λ t. bit_and (addr + 2 ^ k - 1) t) (mask_eq k (64 - k) (omega arith)),
  and_high k (64 - k) (addr + 2 ^ k - 1),
  quotient_lt k (64 - k) (addr + 2 ^ k - 1),
)

pub ceil_to-IsCeil : (addr align : ℕ) → 0 < align → IsCeil addr align (ceil_to addr align)
ceil_to-IsCeil addr align h = record {
  above = omega (arith, div-add-mod' (addr + align - 1) align, mod-lt (addr + align - 1) h);
  close = omega (arith, div-add-mod' (addr + align - 1) align);
  aligned = mul-mod_left ((addr + align - 1) / align) align;
}

-- `Layout::from_size_align`: `none` is a `LayoutError`. The last test keeps the size, rounded up to
-- the alignment, within `isize::MAX`.
unfoldable pub from_size_align : ℕ → ℕ → Option Layout
from_size_align size align =
    if align == 0 || not (bit_and align (align - 1) == 0) || ltb (2 ^ 63 - align) size
    then none
    else some (record { size = size; align = align })

-- `Layout::align_to`
unfoldable pub align_to : Layout → ℕ → Option Layout
unfolding from_size_align
align_to l align = from_size_align l.size (max l.align align)

-- `Layout::pad_to_align`
unfoldable pub pad_to_align : Layout → Layout
pad_to_align l = record { size = ceil_to l.size l.align; align = l.align }
