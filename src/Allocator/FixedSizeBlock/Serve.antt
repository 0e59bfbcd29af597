-- ===== src/Allocator/FixedSizeBlock/Serve.antt =====
-- What `alloc` of kernel/src/allocator/fixed_size_block.rs does on every request.
use lemoncake.Base.{ℕ, ◌<◌, max, List, [], ◌∷◌, Option, none, some, Run, done, panic}
use lemoncake.Base.{true, Option-cases, inl, inr, ltb, lt→ltb, ◌≡◌, ◌≢◌, refl, sym, ap, ◌∙◌, arith}
use mathlib.Core.Path.{subst}
use lemoncake.Base.{length, set, get_elem?, get_elem?-some}
use lemoncake.Allocator.Layout.{Layout, null, from_size_align}
use lemoncake.Allocator.FixedSizeBlock.{list_index, block_sizes, alloc, fallback_alloc, FixedSize}
use lemoncake.Allocator.FixedSizeBlock.Fallback.{Heap}
use lemoncake.Allocator.FixedSizeBlock.Blocks.{
  Class, list_index-Class, Class-lt, nat_eq, node_fits, block_sizes-AllFit, Aligned, Aligned-get,
  block_sizes-AllAligned,
}

-- The pointer of an answer of the fallback heap.
abbrev pub or_null : Option ℕ → ℕ
or_null (some ptr) = ptr
or_null none = null

module _ (heap : Heap) where
  fallback_alloc_lem :
      (l : Layout) (heads : List (List ℕ)) (h : heap.State)
      → fallback_alloc heap l (heads, h)
        ≡ (or_null (heap.allocate_first_fit l h).0, (heads, (heap.allocate_first_fit l h).1))
  unfolding fallback_alloc
  fallback_alloc_lem l heads h = elim (Option-cases (heap.allocate_first_fit l h).0) [
    | inl e ↦ rw (fallback_alloc, e) refl
    | inr (ptr, e) ↦ rw (fallback_alloc, e) refl
  ]

  -- What a request gets. A layout of no class is asked of the fallback heap as it is. In a class with
  -- a free block, the first one is taken. In a class without one, a block of the class's size at its
  -- own alignment is asked of the fallback heap, where 4098 is no alignment and panics.
  pub data Served (l : Layout) (heads : List (List ℕ)) (h : heap.State)
      : Run (ℕ × FixedSize heap) → Type 0 where
    large :
        Class (max l.size l.align) block_sizes none
        → Served l heads h (
            done
              (or_null (heap.allocate_first_fit l h).0, (heads, (heap.allocate_first_fit l h).1)))
    again :
        (i node : ℕ) (rest : List ℕ)
        → Class (max l.size l.align) block_sizes (some i)
        → get_elem? heads i ≡ some (node ∷ rest)
        → Served l heads h (done (node, (set heads i rest, h)))
    fresh :
        (i s : ℕ)
        → Class (max l.size l.align) block_sizes (some i)
        → get_elem? block_sizes i ≡ some s
        → s ≢ 4098
        → get_elem? heads i ≡ some []
        → Served l heads h (
            done (
              or_null (heap.allocate_first_fit (record { size = s; align = s }) h).0,
              (heads, (heap.allocate_first_fit (record { size = s; align = s }) h).1),
            ))
    broken :
        (i : ℕ)
        → Class (max l.size l.align) block_sizes (some i)
        → get_elem? block_sizes i ≡ some 4098
        → get_elem? heads i ≡ some []
        → Served l heads h panic

  class-Served :
      (l : Layout) (heads : List (List ℕ)) (h : heap.State) (i s : ℕ) (head : List ℕ)
      → list_index l ≡ some i
      → i < length heads
      → get_elem? block_sizes i ≡ some s
      → get_elem? heads i ≡ some head
      → Served l heads h (alloc heap l (heads, h))
  unfolding alloc from_size_align Aligned
  class-Served l heads h i s (node ∷ rest) class below size_at at =
      let c = subst (λ o. Class (max l.size l.align) block_sizes o) class (list_index-Class l) in
      let in_range : ltb i (length heads) ≡ true = lt→ltb _ _ below in
      let run : alloc heap l (heads, h) ≡ done (node, (set heads i rest, h)) =
        rw (alloc, class, at, in_range) refl in
      subst (λ r. Served l heads h r) (sym run) (Served.again i node rest c at)
  class-Served l heads h i s [] class below size_at at =
      let c = subst (λ o. Class (max l.size l.align) block_sizes o) class (list_index-Class l) in
      let block : Layout = record { size = s; align = s } in
      elim (nat_eq s 4098) [
        | inl e ↦
            let size_at' : get_elem? block_sizes i ≡ some 4098 = size_at ∙ ap some e in
            let run : alloc heap l (heads, h) ≡ panic = rw (alloc, class, at, size_at') refl in
            subst (λ r. Served l heads h r) (sym run) (Served.broken i c size_at' at)
        | inr ne ↦ elim (Aligned-get block_sizes i s block_sizes-AllAligned size_at) [
          | inl ok ↦
              let run : alloc heap l (heads, h) ≡ done (fallback_alloc heap block (heads, h)) =
                rw (alloc, class, at, size_at, ok) refl in
              subst (λ r. Served l heads h r)
                (sym (run ∙ ap done (fallback_alloc_lem block heads h)))
                (Served.fresh i s c size_at ne at)
          | inr e ↦ absurd (ne e)
        ]
      ]

  -- With ten lists, `alloc` answers every request as its class says: the class of a layout is the
  -- first of the block sizes that is at least its size and its alignment. Without a class the
  -- fallback heap gets the layout; with a class the first free block of it is taken, else the
  -- fallback heap gets the class's size as size and alignment. A fallback heap without room gives
  -- null. Only the class of 4098 bytes panics, when it has no free block.
  pub alloc-Served :
      (l : Layout) (heads : List (List ℕ)) (h : heap.State)
      → length heads ≡ 10
      → Served l heads h (alloc heap l (heads, h))
  unfolding alloc
  alloc-Served l heads h ten = elim (Option-cases (list_index l)) [
    | inl e ↦
        let run : alloc heap l (heads, h) ≡ done (fallback_alloc heap l (heads, h)) =
          rw (alloc, e) refl in
        subst (λ r. Served l heads h r) (sym (run ∙ ap done (fallback_alloc_lem l heads h)))
          (Served.large
            (subst (λ o. Class (max l.size l.align) block_sizes o) e (list_index-Class l)))
    | inr (i, e) ↦
        let small : i < 10 = Class-lt block_sizes (list_index l) (list_index-Class l) e in
        let (head, at) = get_elem?-some heads i (omega (arith, small, ten)) in
        let (s, size_at, fits) = node_fits block_sizes i block_sizes-AllFit small in
        class-Served l heads h i s head e (omega (arith, small, ten)) size_at at
  ]
