-- ===== src/Allocator/FixedSizeBlock/Blocks.antt =====
-- The size classes of kernel/src/allocator/fixed_size_block.rs and the blocks that are used again.
use lemoncake.Base.{
  ℕ, zero, suc, ◌+◌, ◌≤◌, ◌<◌, max, leb, List, [], ◌∷◌, Option, none, some, done, ◌>>=◌,
}
use lemoncake.Base.{
  true, Bool-cases, Option-cases, inl, inr, leb→le, ltb, lt→ltb, ◌≡◌, ◌≢◌, ◌⊎◌, ==→≡, ==→≢, refl,
  ap, arith,
}
use mathlib.Core.Path.{subst}
use lemoncake.Base.{length, set, get_elem?, length-set, get_elem?-set_self, get_elem?-some, ◌==◌}
use lemoncake.Allocator.Layout.{Layout, from_size_align}
use lemoncake.Allocator.FixedSizeBlock.{
  first_from, list_index, block_sizes, alloc, dealloc, node_size,
}
use lemoncake.Allocator.FixedSizeBlock.Fallback.{Heap}

-- What `position` of `s >= required` answers on a list of sizes: the first that is large enough.
pub data Class (required : ℕ) : List ℕ → Option ℕ → Type 0 where
  too_large : Class required [] none
  here : (s : ℕ) (sizes : List ℕ) → required ≤ s → Class required (s ∷ sizes) (some 0)
  next :
      (s i : ℕ) (sizes : List ℕ)
      → s < required
      → Class required sizes (some i)
      → Class required (s ∷ sizes) (some (i + 1))
  past :
      (s : ℕ) (sizes : List ℕ)
      → s < required
      → Class required sizes none
      → Class required (s ∷ sizes) none

first_from-Class :
    (required : ℕ) (sizes : List ℕ) → Class required sizes (first_from required sizes)
unfolding first_from
first_from-Class required [] = too_large
first_from-Class required (s ∷ sizes) = elim (Bool-cases (leb required s)) [
  | inl e ↦ rw e (here s sizes (leb→le required s e))
  | inr e ↦
      let rest = first_from-Class required sizes in
      let small : s < required = ground arith in
      elim (Option-cases (first_from required sizes)) [
        | inl h ↦ rw (e, h) (past s sizes small (subst (λ o. Class required sizes o) h rest))
        | inr (i, h) ↦ rw (e, h) (next s i sizes small (subst (λ o. Class required sizes o) h rest))
      ]
]

pub nat_eq : (a b : ℕ) → (a ≡ b) ⊎ (a ≢ b)
nat_eq a b = elim (Bool-cases (a == b)) [ inl e ↦ inl (==→≡ a b e) | inr e ↦ inr (==→≢ a b e) ]

-- `set` at the same index.
set-set {ℓ} : {A : Type ℓ} (xs : List A) (i : ℕ) (v w : A) → set (set xs i v) i w ≡ set xs i w
set-set [] i v w = refl
set-set (x ∷ xs) zero v w = refl
set-set (x ∷ xs) (suc i) v w = ap (λ t. x ∷ t) (set-set xs i v w)

set-same {ℓ} :
    {A : Type ℓ} (xs : List A) (i : ℕ) (v : A) → get_elem? xs i ≡ some v → set xs i v ≡ xs
set-same [] i v e = refl
set-same (x ∷ xs) zero v e = cc
set-same (x ∷ xs) (suc i) v e = ap (λ t. x ∷ t) (set-same xs i v e)

-- The class that a layout is put in is the first whose blocks hold its size and its alignment; there
-- is none exactly when the largest block is too small.
pub list_index-Class :
    (layout : Layout) → Class (max layout.size layout.align) block_sizes (list_index layout)
unfolding list_index
list_index-Class layout = first_from-Class (max layout.size layout.align) block_sizes

pub Class-lt :
    {required i : ℕ} (sizes : List ℕ) (o : Option ℕ)
    → Class required sizes o
    → o ≡ some i
    → i < length sizes
Class-lt _ _ too_large e = cc
Class-lt _ _ (here s sizes h) e = ground arith
Class-lt _ _ (next s i sizes h c) e = let below = Class-lt sizes (some i) c refl in ground arith
Class-lt _ _ (past s sizes h c) e = cc

pub AllFit : List ℕ → Type 0
AllFit [] = Unit
AllFit (s ∷ sizes) = (leb node_size s ≡ true) × AllFit sizes

pub node_fits :
    (sizes : List ℕ) (i : ℕ)
    → AllFit sizes
    → i < length sizes
    → (s : ℕ) × (get_elem? sizes i ≡ some s) × (leb node_size s ≡ true)
unfolding AllFit
node_fits [] i f h = absurd (omega arith)
node_fits (s ∷ sizes) zero (f, fs) h = (s, refl, f)
node_fits (s ∷ sizes) (suc i) (f, fs) h = node_fits sizes i fs (omega arith)

pub block_sizes-AllFit : AllFit block_sizes
unfolding AllFit
block_sizes-AllFit =
    (refl, (refl, (refl, (refl, (refl, (refl, (refl, (refl, (refl, (refl, tt))))))))))

-- A block of `s` bytes at its own size, or the size that is no power of two.
unfoldable pub Aligned : ℕ → Type 0
Aligned s = (from_size_align s s ≡ some (record { size = s; align = s })) ⊎ (s ≡ 4098)

pub AllAligned : List ℕ → Type 0
AllAligned [] = Unit
AllAligned (s ∷ sizes) = Aligned s × AllAligned sizes

pub Aligned-get :
    (sizes : List ℕ) (i s : ℕ) → AllAligned sizes → get_elem? sizes i ≡ some s → Aligned s
unfolding AllAligned
Aligned-get [] i s f e = cc
Aligned-get (x ∷ sizes) zero s (f, fs) e = let same : x ≡ s = cc in subst (λ t. Aligned t) same f
Aligned-get (x ∷ sizes) (suc i) s (f, fs) e = Aligned-get sizes i s fs e

pub block_sizes-AllAligned : AllAligned block_sizes
unfolding AllAligned Aligned from_size_align
block_sizes-AllAligned = (
  inl refl,
  (
    inl refl,
    (
      inl refl,
      (inl refl, (inl refl, (inl refl, (inl refl, (inl refl, (inl refl, (inr refl, tt))))))),
    ),
  ),
)

module _ (heap : Heap) where
  -- With ten lists, for a layout that has a class: a block that is given back passes the
  -- checks of `dealloc`, is what the next request of this layout receives, and leaves the
  -- allocator as it was before.
  pub dealloc-alloc :
      (layout : Layout) (i ptr : ℕ) (heads : List (List ℕ)) (h : heap.State)
      → length heads ≡ 10
      → list_index layout ≡ some i
      → (dealloc heap ptr layout (heads, h) >>= alloc heap layout) ≡ done (ptr, (heads, h))
  unfolding dealloc alloc
  dealloc-alloc layout i ptr heads h ten class =
      let small : i < 10 =
        Class-lt block_sizes (list_index layout) (list_index-Class layout) class in
      let (head, at) = get_elem?-some heads i (omega (arith, small, ten)) in
      let (s, size_at, fits) = node_fits block_sizes i block_sizes-AllFit small in
      let in_range : ltb i (length heads) ≡ true =
        lt→ltb i (length heads) (omega (arith, small, ten)) in
      let in_range' : ltb i (length (set heads i (ptr ∷ head))) ≡ true =
        lt→ltb _ _ (omega (arith, small, ten, length-set heads i (ptr ∷ head))) in
      rw
        (
          class,
          dealloc,
          at,
          size_at,
          fits,
          in_range,
          get_elem?-set_self heads i (ptr ∷ head) (omega (arith, small, ten)),
          in_range',
          set-set heads i (ptr ∷ head) head,
          set-same heads i head at,
          alloc,
        )
        refl
