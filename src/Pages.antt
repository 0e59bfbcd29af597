-- ===== src/Pages.antt =====
-- The page functions of kernel/src/allocator/mod.rs over an address space: `alloc_pages`,
-- `alloc_pages_user`, `map_page`, `unmap_page`, `alloc`, `alloc_user`, `free` and `init_heap`. A page
-- and a frame are their numbers; the static `NEXT_VIRT` of each allocating function is passed along.
pub mod AddressSpace
pub mod Table
pub mod Alloc
pub mod Free
pub mod Samples
mod Tests
use lemoncake.Base.{
  ℕ, zero, suc, ◌+◌, ◌-◌, ◌*◌, ◌/◌, ◌^◌, max, ltb, leb, ◌==◌, ◌||◌, ◌&&◌, if◌then◌else◌, Bool, true,
  false,
}
use lemoncake.Base.{
  Option, none, some, ◌⊎◌, inl, inr, Run, done, panic, ◌>>=◌, ◌>>◌, assert, unwrap, add_w, mul_w,
  sub_w, for_range, word,
}
use AddressSpace.{Space, Flags}

abbrev pub page_size : ℕ
page_size = 4096

abbrev pub heap_start : ℕ
heap_start = 0x444444440000

-- 15 MiB
abbrev pub heap_size : ℕ
heap_size = 15 * 1024 * 1024

-- The first values of the two `NEXT_VIRT`.
abbrev pub kernel_base : ℕ
kernel_base = 0xffff900000000000

abbrev pub user_base : ℕ
user_base = 0xffffffff90000000

-- The addresses that `VirtAddr::new` accepts; it panics on the others.
abbrev pub canonical : ℕ → Bool
canonical addr = ltb addr (2 ^ 47) || (leb (2 ^ 64 - 2 ^ 47) addr && ltb addr word)

-- `VirtAddr::new` and `Page::containing_address`
abbrev pub page_of : ℕ → Run ℕ
page_of addr = if canonical addr then done (addr / page_size) else panic

abbrev pub kernel_flags : Flags
kernel_flags = record { present = true; writable = true; user_accessible = false }

abbrev pub user_flags : Flags
user_flags = record { present = true; writable = true; user_accessible = true }

abbrev pub div_ceil : ℕ → ℕ → ℕ
div_ceil a b = (a + b - 1) / b

module _ (space : Space) where
  open space use {
    State, MapError, UnmapError, allocate_frame, map_to, map_with_no_frames, unmap, frame_error,
  }

  -- `expect` on what the mapper returns
  abbrev pub expect_mapped : (MapError ⊎ Unit {0}) × State → Run State
  expect_mapped (inl e, s) = panic
  expect_mapped (inr _, s) = done s

  -- `expect` on what the frame allocator returns, and the call of the mapper
  abbrev pub map_frame : Flags → ℕ → Option ℕ × State → Run State
  map_frame flags page (none, s) = panic
  map_frame flags page (some phys, s) = expect_mapped (map_to page phys flags s)

  -- One round of `alloc_pages`.
  unfoldable pub map_next : Flags → ℕ → ℕ → State → Run State
  map_next flags base i s = do
    offset ← mul_w 64 i page_size
    virt ← add_w 64 base offset
    page ← page_of virt
    map_frame flags page (allocate_frame s)

  -- `alloc_pages` and `alloc_pages_user`, which differ in the flags and have a `NEXT_VIRT` each. The
  -- result is the address, and `NEXT_VIRT` and the address space after the call.
  unfoldable pub alloc_pages : Flags → ℕ → ℕ × State → Run (Option ℕ × ℕ × State)
  unfolding for_range map_next
  alloc_pages flags num_pages (next_virt, s) = do
    bytes ← mul_w 64 num_pages page_size
    next ← add_w 64 next_virt bytes
    s' ← for_range num_pages 0 (map_next flags next_virt) s
    page_of next_virt >>= λ _. done (some next_virt, next, s')

  -- `alloc` and `alloc_user`
  unfoldable pub alloc : Flags → ℕ → ℕ × State → Run (Option ℕ × ℕ × State)
  unfolding alloc_pages
  alloc flags num_bytes (next_virt, s) =
      if num_bytes == 0
      then done (none, next_virt, s)
      else alloc_pages flags (max (div_ceil num_bytes page_size) 2) (next_virt, s)

  -- `?` on what the mapper's `unmap` returns, before the rest of the loop.
  abbrev pub or_error :
      (State → Run (Option UnmapError × State))
      → (UnmapError ⊎ ℕ) × State
      → Run (Option UnmapError × State)
  or_error rest (inl e, s) = done (some e, s)
  or_error rest (inr frame, s) = rest s

  -- The loop of `free`.
  unfoldable pub unmap_from : ℕ → ℕ → ℕ → State → Run (Option UnmapError × State)
  unmap_from zero i virt_addr s = done (none, s)
  unmap_from (suc n) i virt_addr s = do
    page ← page_of (virt_addr + i * page_size)
    or_error (unmap_from n (i + 1) virt_addr) (unmap page s)

  unfoldable pub free : ℕ → ℕ → State → Run (Option UnmapError × State)
  unfolding unmap_from
  free virt_addr num_bytes s =
      if virt_addr == 0 || num_bytes == 0
      then done (none, s)
      else unmap_from (div_ceil num_bytes page_size) 0 virt_addr s

  -- `EmptyFrameAllocator` has no frame for new tables; `PhysAddr::new` panics above 52 bits.
  pub map_page : ℕ → ℕ → Flags → State → Run (Option MapError × State)
  map_page virt_addr phys_addr flags s = do
    page ← page_of virt_addr
    assert (ltb phys_addr (2 ^ 52))
    let (r, s') = map_with_no_frames page (phys_addr / page_size) flags s
    elim r [ inl e ↦ done (some e, s') | inr _ ↦ done (none, s') ]

  pub unmap_page : ℕ → State → Run (Option UnmapError × State)
  unmap_page virt_addr s = do
    page ← page_of virt_addr
    or_error (λ s'. done (none, s')) (unmap page s)

  -- The loop of `init_heap`, which begins at the page `page`.
  pub map_heap : ℕ → ℕ → State → Option MapError × State
  map_heap zero page s = (none, s)
  map_heap (suc n) page s =
      let (frame, s1) = allocate_frame s in
      elim frame [
        | none ↦ (some frame_error, s1)
        | some phys ↦
            let (r, s2) = map_to page phys kernel_flags s1 in
            elim r [ inl e ↦ (some e, s2) | inr _ ↦ map_heap n (page + 1) s2 ]
      ]

  -- The part of `init_heap` before the allocator itself is initialised.
  pub init_heap : State → Option MapError × State
  unfolding map_heap
  init_heap s =
      let first = heap_start / page_size in
      let last = (heap_start + heap_size - 1) / page_size in map_heap (last - first + 1) first s
