-- ===== src/Allocator/LinkedList.antt =====
-- kernel/src/allocator/linked_list.rs. The list threads through the free memory itself: a node is
-- its address and its size, and the state is the chain behind `head`. `ListNode` has 16 bytes and
-- alignment 8.
pub mod Cover
pub mod Search
pub mod Alloc
pub mod History
pub mod Refines
mod Tests
use lemoncake.Base.{ℕ, ◌+◌, ◌-◌, max, ltb, leb, ◌==◌, ◌&&◌, if◌then◌else◌, Option, none, some}
use lemoncake.Base.{
  List, [], ◌∷◌, Run, done, ◌>>=◌, ◌>>◌, assert, unwrap, add_w, sub_w, checked_add,
}
use lemoncake.Allocator.Layout.{Layout, null, align_up, align_to, pad_to_align}

abbrev pub node_size : ℕ
node_size = 16

abbrev pub node_align : ℕ
node_align = 8

pub record Region : Type 0 where
  pub addr : ℕ
  pub size : ℕ

-- `ListNode::end_addr`
pub end_addr : Region → Run ℕ
end_addr r = add_w 64 r.addr r.size

pub size_align : Layout → Run (ℕ × ℕ)
size_align layout = do
  aligned ← unwrap (align_to layout node_align)
  let padded = pad_to_align aligned
  done (max padded.size node_size, padded.align)

pub add_free_region : ℕ → ℕ → List Region → Run (List Region)
add_free_region addr size regions = do
  up ← align_up addr node_align
  assert (up == addr)
  assert (leb node_size size)
  done (record { addr = addr; size = size } ∷ regions)

pub init : ℕ → ℕ → List Region → Run (List Region)
unfolding add_free_region
init heap_start heap_size regions = add_free_region heap_start heap_size regions

-- `none` is `Err(())`.
pub alloc_from_region : Region → ℕ → ℕ → Run (Option ℕ)
unfolding end_addr
alloc_from_region r size align = do
  alloc_start ← align_up r.addr align
  elim (checked_add alloc_start size) [
    | none ↦ done none
    | some alloc_end ↦ (do
      e ← end_addr r
      if ltb e alloc_end
          then done none
          else (let excess = e - alloc_end in
              if ltb 0 excess && ltb excess node_size then done none else done (some alloc_start)))
  ]

-- The region that is taken out, the start of the allocation in it, and the other regions.
abbrev pub Found : Type 0
Found = Region × ℕ × List Region

abbrev pub skip : Region → Option Found → Option Found
skip r none = none
skip r (some (q, alloc_start, rest)) = some (q, alloc_start, r ∷ rest)

pub find_region : ℕ → ℕ → List Region → Run (Option Found)
unfolding alloc_from_region
find_region size align [] = done none
find_region size align (r ∷ rs) = alloc_from_region r size align >>= elim [
  | some alloc_start ↦ done (some (r, alloc_start, rs))
  | none ↦ find_region size align rs >>= λ rest. done (skip r rest)
]

-- `alloc` behind its `size_align`.
pub alloc_sized : ℕ → ℕ → List Region → Run (ℕ × List Region)
unfolding find_region end_addr add_free_region
alloc_sized size align regions = find_region size align regions >>= elim [
  | none ↦ done (null, regions)
  | some (r, alloc_start, rest) ↦ (do
    alloc_end ← unwrap (checked_add alloc_start size)
    e ← end_addr r
    excess ← sub_w e alloc_end
    rest' ← if ltb 0 excess then add_free_region alloc_end excess rest else done rest
    done (alloc_start, rest'))
]

pub alloc : Layout → List Region → Run (ℕ × List Region)
unfolding size_align alloc_sized
alloc layout regions = do (size, align) ← size_align layout; alloc_sized size align regions

pub dealloc : ℕ → Layout → List Region → Run (List Region)
unfolding size_align add_free_region
dealloc ptr layout regions = do (size, align) ← size_align layout; add_free_region ptr size regions
