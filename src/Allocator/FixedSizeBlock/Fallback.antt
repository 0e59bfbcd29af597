-- ===== src/Allocator/FixedSizeBlock/Fallback.antt =====
-- What kernel/src/allocator/fixed_size_block.rs calls of `linked_list_allocator::Heap`.
use lemoncake.Base.{ℕ, Option}
use lemoncake.Allocator.Layout.{Layout}

pub record Heap : Type 1 where
  pub State : Type 0
  pub empty : State
  -- `init`
  pub grow : ℕ → ℕ → State → State
  pub allocate_first_fit : Layout → State → Option ℕ × State
  pub deallocate : ℕ → Layout → State → State
