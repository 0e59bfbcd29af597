-- ===== src/Allocator/LinkedList/Tests.antt =====
-- The allocator of kernel/src/allocator/linked_list.rs on a heap of two regions.
use lemoncake.Base.{ℕ, ◌≡◌, refl, arith, List, [], ◌∷◌, All, Option, done}
use lemoncake.Allocator.Layout.{Layout, align_up, from_size_align, align_to, pad_to_align}
use lemoncake.Allocator.LinkedList.{
  Region, Found, size_align, find_region, add_free_region, end_addr, alloc_from_region, alloc_sized,
  init, alloc,
}
use lemoncake.Allocator.LinkedList.Search.{Ready, Answers, find_region-Answers}
use lemoncake.Allocator.LinkedList.Alloc.{IsLayout, Serves, Allocates, list_alloc-Allocates}
use lemoncake.Allocator.Contract.{Call, Heap}
use lemoncake.Allocator.LinkedList.Refines.{calls, Reach-Heap}
use lemoncake.Allocator.LinkedList.History.{Reach, Sound, Reach-Apart}

abbrev page : Layout
page = record { size = 100; align = 16 }

abbrev two_regions : List Region
two_regions = record { addr = 64; size = 32 } ∷ record { addr = 4096; size = 1024 } ∷ []

two_regions-Ready : All (Ready 8192) two_regions
two_regions-Ready = (
  (record { aligned = refl; large = omega arith }, omega arith),
  ((record { aligned = refl; large = omega arith }, omega arith), tt),
)

find_region-Answers_example :
    (o : Option Found) × (find_region 112 16 two_regions ≡ done o)
    × Answers 8192 112 16 two_regions o
find_region-Answers_example =
    find_region-Answers 8192 112 4 (omega arith) (omega arith) two_regions two_regions-Ready

page-IsLayout : IsLayout page
page-IsLayout = record { exponent = 4; small = omega arith; power = refl; bounded = omega arith }

list_alloc-Allocates_example :
    (size align : ℕ) × Serves page size align
    × (a : Allocates 8192 size align two_regions) × (size_align page ≡ done (size, align))
    × (alloc page two_regions ≡ done (a.ptr, a.after))
list_alloc-Allocates_example =
    list_alloc-Allocates 8192 page two_regions page-IsLayout (omega arith) two_regions-Ready

abbrev left : List Region
left = record { addr = 4208; size = 912 } ∷ []

left-Reach : Reach 4096 1024 left (record { addr = 4096; size = 112 } ∷ [])
unfolding init alloc add_free_region align_up size_align align_to pad_to_align from_size_align
    find_region alloc_from_region end_addr alloc_sized
left-Reach =
    Reach.grant page 4096 112 16 (Reach.begin refl) (page-IsLayout, omega arith) refl refl
      (λ e. omega (arith, e))

Reach-Apart_example : Sound 4096 1024 left (record { addr = 4096; size = 112 } ∷ [])
Reach-Apart_example = Reach-Apart 4096 1024 refl (omega arith) (omega arith) left-Reach

Reach-Heap_example : Heap 4096 1024 (Call.granted page 4096 ∷ []) ((4096, 112) ∷ [])
unfolding calls left-Reach
Reach-Heap_example = Reach-Heap 4096 1024 refl (omega arith) (omega arith) left-Reach
