-- ===== src/Allocator/FixedSizeBlock/Tests.antt =====
-- The allocator of kernel/src/allocator/fixed_size_block.rs over a heap with one address.
use lemoncake.Base.{ℕ, suc, refl, List, [], ◌∷◌, some}
use lemoncake.Allocator.Layout.{Layout}
use lemoncake.Allocator.FixedSizeBlock.{alloc}
use lemoncake.Allocator.FixedSizeBlock.Fallback.{Heap}
use lemoncake.Allocator.FixedSizeBlock.Serve.{Served, alloc-Served}

abbrev page : Layout
page = record { size = 100; align = 16 }

-- A heap that grants the address 4096 to every request.
abbrev fixed : Heap
fixed = record {
  State = ℕ;
  empty = 0;
  grow = λ start size n. n;
  allocate_first_fit = λ layout n. (some 4096, suc n);
  deallocate = λ ptr layout n. n;
}

abbrev heads : List (List ℕ)
heads = [] ∷ [] ∷ [] ∷ [] ∷ (512 ∷ []) ∷ [] ∷ [] ∷ [] ∷ [] ∷ [] ∷ []

abbrev small_page : Layout
small_page = record { size = 3000; align = 16 }

alloc-Served_example : Served fixed small_page heads 0 (alloc fixed small_page (heads, 0))
alloc-Served_example = alloc-Served fixed small_page heads 0 refl
