-- ===== src/Allocator/FixedSizeBlock.antt =====
-- kernel/src/allocator/fixed_size_block.rs. A list of free blocks is the list of their addresses,
-- the head first; the heap of the crate linked_list_allocator behind it is a parameter.
pub mod Fallback
pub mod Blocks
pub mod Serve
mod Tests
use lemoncake.Base.{
  ℕ, ◌+◌, max, leb, if◌then◌else◌, List, [], ◌∷◌, Option, none, some, Run, done, panic, ◌>>=◌, ◌>>◌,
}
use lemoncake.Base.{load, store, assert, unwrap, replicate, length, not, ◌==◌}
use lemoncake.Allocator.Layout.{Layout, null, from_size_align}
use Fallback.{Heap}

-- `BLOCK_SIZES`
abbrev pub block_sizes : List ℕ
block_sizes = 8 ∷ 16 ∷ 32 ∷ 64 ∷ 128 ∷ 256 ∷ 512 ∷ 1024 ∷ 2048 ∷ 4098 ∷ []

-- `iter().position(|&s| s >= required)`
unfoldable pub first_from : ℕ → List ℕ → Option ℕ
first_from required [] = none
first_from required (s ∷ sizes) =
    let rest = first_from required sizes in
    if leb required s then some 0 else elim rest [ none ↦ none | some i ↦ some (i + 1) ]

unfoldable pub list_index : Layout → Option ℕ
unfolding first_from
list_index layout = first_from (max layout.size layout.align) block_sizes

-- The size and the alignment of a `ListNode`, one pointer.
abbrev pub node_size : ℕ
node_size = 8

module _ (heap : Heap) where
  open heap use {State, empty, grow, allocate_first_fit, deallocate}

  -- `list_heads` and `fallback_allocator`
  abbrev pub FixedSize : Type 0
  FixedSize = List (List ℕ) × State

  pub new : FixedSize
  new = (replicate (length block_sizes) [], empty)

  pub init : ℕ → ℕ → FixedSize → FixedSize
  init heap_start heap_size (heads, h) = (heads, grow heap_start heap_size h)

  unfoldable pub fallback_alloc : Layout → FixedSize → ℕ × FixedSize
  fallback_alloc layout (heads, h) =
      let (r, h') = allocate_first_fit layout h in
      elim r [ some ptr ↦ (ptr, (heads, h')) | none ↦ (null, (heads, h')) ]

  unfoldable pub alloc : Layout → FixedSize → Run (ℕ × FixedSize)
  unfolding list_index fallback_alloc from_size_align
  alloc layout (heads, h) = elim (list_index layout) [
    | none ↦ done (fallback_alloc layout (heads, h))
    | some index ↦ (do
      head ← load index heads
      elim head [
        | node ∷ next ↦ (do heads' ← store index next heads; done (node, (heads', h)))
        | [] ↦ (do
          block_size ← load index block_sizes
          block ← unwrap (from_size_align block_size block_size)
          done (fallback_alloc block (heads, h)))
      ])
  ]

  unfoldable pub dealloc : ℕ → Layout → FixedSize → Run FixedSize
  unfolding list_index
  dealloc ptr layout (heads, h) = elim (list_index layout) [
    | none ↦ assert (not (ptr == null)) >> done (heads, deallocate ptr layout h)
    | some index ↦ (do
      head ← load index heads
      block_size ← load index block_sizes
      assert (leb node_size block_size)
      heads' ← store index (ptr ∷ head) heads
      done (heads', h))
  ]
