-- ===== src/Pages/AddressSpace.antt =====
-- What kernel/src/allocator/mod.rs needs of the crate x86_64: a frame allocator and the page tables
-- that a `Mapper` changes.
use lemoncake.Base.{ℕ, Bool, Option, ◌⊎◌}

-- The page table flags that the kernel sets.
pub record Flags : Type 0 where
  pub present : Bool
  pub writable : Bool
  pub user_accessible : Bool

pub record Space : Type 1 where
  pub State : Type 0
  pub MapError : Type 0
  pub UnmapError : Type 0
  -- `FrameAllocationFailed`
  pub frame_error : MapError
  pub allocate_frame : State → Option ℕ × State
  -- a page to a frame, where new tables take frames of the allocator
  pub map_to : ℕ → ℕ → Flags → State → (MapError ⊎ Unit {0}) × State
  -- the same with a frame allocator that has none
  pub map_with_no_frames : ℕ → ℕ → Flags → State → (MapError ⊎ Unit {0}) × State
  -- the frame that the page was mapped to
  pub unmap : ℕ → State → (UnmapError ⊎ ℕ) × State
