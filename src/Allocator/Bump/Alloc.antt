-- ===== src/Allocator/Bump/Alloc.antt =====
-- What one call of `alloc` or `dealloc` does on a valid bump allocator.
use lemoncake.Base.{ℕ, ◌+◌, ◌^◌, ◌%◌, ◌≤◌, ◌<◌, ◌≡◌, ◌≢◌, ◌⊎◌, inl, inr, arith}
use lemoncake.Base.{done, word, ltb, Bool-cases}
use lemoncake.Allocator.Layout.{
  Layout, null, align_up, align_up_lem, ceil_to, IsCeil, ceil_to-IsCeil,
}
use lemoncake.Allocator.Bump.{Bump, alloc}
use native.Mathlib.Nat.{one-le-pow}

-- The free part begins at `next`.
pub record IsValid (b : Bump) : Type 0 where
  pub positive : 0 < b.heap_start
  pub started : b.heap_start ≤ b.next
  pub within : b.next ≤ b.heap_end

-- A layout that `core` can build, small enough that no address of this heap overflows with it, and
-- a counter with room for one more.
pub record Fits (l : Layout) (b : Bump) : Type 0 where
  pub exponent : ℕ
  pub small : exponent ≤ 64
  pub power : l.align ≡ 2 ^ exponent
  pub room : b.heap_end + l.align < word
  pub countable : b.allocations + 1 < word

-- A block was handed out: the first aligned address from `next` on, inside the heap.
pub record Grants (l : Layout) (b : Bump) (ptr : ℕ) (after : Bump) : Type 0 where
  pub real : ptr ≢ null
  pub above : b.next ≤ ptr
  pub close : ptr < b.next + l.align
  pub aligned : ptr % l.align ≡ 0
  pub inside : ptr + l.size ≤ b.heap_end
  pub state : after ≡ record b { next = ptr + l.size; allocations = b.allocations + 1 }

-- The heap has no room after rounding up, and nothing changed.
pub record Refuses (l : Layout) (b : Bump) (ptr : ℕ) (after : Bump) : Type 0 where
  pub no_room : b.heap_end < ceil_to b.next l.align + l.size
  pub is_null : ptr ≡ null
  pub state : after ≡ b

pub record Allocates (l : Layout) (b : Bump) : Type 0 where
  pub ptr : ℕ
  pub after : Bump
  pub returns : alloc l b ≡ done (ptr, after)
  pub outcome : Grants l b ptr after ⊎ Refuses l b ptr after

-- On a valid heap, with a fitting layout, `alloc` does not panic. Either it grants an aligned block
-- inside the heap and moves `next` behind it, or it returns null because the rounded block does not
-- fit, and changes nothing.
pub bump_alloc-Allocates : (l : Layout) (b : Bump) → IsValid b → Fits l b → Allocates l b
unfolding alloc
bump_alloc-Allocates l b v f = elim (Bool-cases (ltb b.heap_end (up + l.size))) [
  | inl full ↦ record {
    ptr = null;
    after = b;
    returns = rw rounded (ground arith);
    outcome = inr (ground arith);
  }
  | inr free ↦ record {
    ptr = up;
    after = record b { next = up + l.size; allocations = b.allocations + 1 };
    returns = rw rounded (ground arith);
    outcome = inl (ground (arith, ceil));
  }
]
  where
    up : ℕ
    up = ceil_to b.next l.align

    positive_align : 0 < l.align
    positive_align = rw f.power (one-le-pow f.exponent 2 (omega arith))

    ceil : IsCeil b.next l.align up
    ceil = ceil_to-IsCeil b.next l.align positive_align

    rounded : align_up b.next l.align ≡ done up
    rounded = rw f.power (align_up_lem b.next f.exponent f.small (omega arith))
