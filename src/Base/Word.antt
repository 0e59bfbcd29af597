-- ===== src/Base/Word.antt =====
-- Machine integers as native numbers: the checked operations of `usize`, shifts and casts.
use Prim.Native.Nat.{ℕ, ◌+◌, ◌-◌, ◌*◌, ◌/◌, ◌%◌, ◌^◌}
use mathlib.Core.Option.{Option, none, some}
use lemoncake.Base.Tests.{ltb, leb, if◌then◌else◌}
use lemoncake.Base.Panic.{Run, done, panic}

abbrev pub word : ℕ
word = 2 ^ 64

-- `a + b`, `a - b` and `a * b` of a `w`-bit type, with the overflow check.
abbrev pub add_w : ℕ → ℕ → ℕ → Run ℕ
add_w w a b = if ltb (a + b) (2 ^ w) then done (a + b) else panic

abbrev pub sub_w : ℕ → ℕ → Run ℕ
sub_w a b = if leb b a then done (a - b) else panic

abbrev pub mul_w : ℕ → ℕ → ℕ → Run ℕ
mul_w w a b = if ltb (a * b) (2 ^ w) then done (a * b) else panic

-- `checked_add` of `usize`
abbrev pub checked_add : ℕ → ℕ → Option ℕ
checked_add a b = if ltb (a + b) word then some (a + b) else none

abbrev pub checked_mul : ℕ → ℕ → Option ℕ
checked_mul a b = if ltb (a * b) word then some (a * b) else none

abbrev pub saturating_add : ℕ → ℕ → ℕ
saturating_add a b = if ltb (a + b) word then a + b else word - 1

-- `x >> k`
abbrev pub shr : ℕ → ℕ → ℕ
shr x k = x / 2 ^ k

-- `x << k` of a `w`-bit type: the bits shifted out are lost.
abbrev pub shl : ℕ → ℕ → ℕ → ℕ
shl w x k = x * 2 ^ k % 2 ^ w

-- `!x` of a `w`-bit type
abbrev pub not_w : ℕ → ℕ → ℕ
not_w w x = 2 ^ w - 1 - x
