-- ===== src/Allocator/Bump.antt =====
-- kernel/src/allocator/bump.rs: the kernel's global allocator. The lock makes each call one step.
pub mod Alloc
pub mod History
mod Tests
use lemoncake.Base.{ℕ, ◌+◌, ◌==◌, ltb, if◌then◌else◌, none, some, Run, done, ◌>>=◌}
use lemoncake.Base.{add_w, sub_w, checked_add, saturating_add}
use lemoncake.Allocator.Layout.{Layout, null, align_up}

pub record Bump : Type 0 where
  pub heap_start : ℕ
  pub heap_end : ℕ
  pub next : ℕ
  pub allocations : ℕ

pub new : Bump
new = record { heap_start = 0; heap_end = 0; next = 0; allocations = 0 }

pub init : ℕ → ℕ → Bump → Bump
init heap_start heap_size b = record b {
  heap_start = heap_start;
  heap_end = saturating_add heap_start heap_size;
  next = heap_start;
}

-- The address of the block, or null, and the state after the call.
pub alloc : Layout → Bump → Run (ℕ × Bump)
alloc layout b = do
  alloc_start ← align_up b.next layout.align
  elim (checked_add alloc_start layout.size) [
    | none ↦ done (null, b)
    | some alloc_end ↦ if ltb b.heap_end alloc_end then done (null, b) else (do
      n ← add_w 64 b.allocations 1
      done (alloc_start, record b { next = alloc_end; allocations = n }))
  ]

-- The pointer and the layout are ignored.
pub dealloc : ℕ → Layout → Bump → Run Bump
dealloc ptr layout b = do
  n ← sub_w b.allocations 1
  let after = record b { allocations = n }
  done (if n == 0 then record after { next = b.heap_start } else after)
