-- ===== src/Allocator/LinkedList/History.antt =====
-- Any sequence of calls from `init`: free memory and live blocks are apart and inside the heap.
use lemoncake.Base.{
  ℕ, zero, suc, ◌+◌, ◌-◌, ◌%◌, ◌≤◌, ◌<◌, ◌≡◌, ◌≢◌, refl, sym, ap, ◌∙◌, inl, inr, arith,
}
use lemoncake.Base.{List, [], ◌∷◌, All, some, get_elem?, done, done-injective, word}
use mathlib.Core.Path.{subst}
use mathlib.Core.Option.{some-injective}
use lemoncake.Allocator.Layout.{Layout, null}
use lemoncake.Allocator.LinkedList.{Region, init, size_align, alloc, dealloc}
use lemoncake.Allocator.LinkedList.Cover.{holds, cover, erase_at}
use lemoncake.Allocator.LinkedList.Search.{Ready}
use lemoncake.Allocator.LinkedList.Alloc.{IsLayout, Outcome, Grants, Roomy}
use lemoncake.Allocator.LinkedList.Alloc.{list_alloc-Allocates, add_free_region_lem}

-- The free lists that calls reach from a heap at `start` of `size` bytes, each with its live
-- blocks at their served sizes. A caller frees a live block with a layout of the same served size.
pub data Reach (start size : ℕ) : List Region → List Region → Type 0 where
  begin : {free : List Region} → init start size [] ≡ done free → Reach start size free []
  grant :
      {free free' live : List Region} (l : Layout) (ptr served align : ℕ)
      → Reach start size free live
      → IsLayout l × Roomy (start + size) l
      → size_align l ≡ done (served, align)
      → alloc l free ≡ done (ptr, free')
      → ptr ≢ null
      → Reach start size free' (record { addr = ptr; size = served } ∷ live)
  refuse :
      {free free' live : List Region} (l : Layout)
      → Reach start size free live
      → IsLayout l × Roomy (start + size) l
      → alloc l free ≡ done (null, free')
      → Reach start size free' live
  release :
      {free free' live : List Region} (i : ℕ) (block : Region) (l : Layout) (align : ℕ)
      → Reach start size free live
      → get_elem? live i ≡ some block
      → size_align l ≡ done (block.size, align)
      → dealloc block.addr l free ≡ done free'
      → Reach start size free' (erase_at i live)

-- Every address is in at most one free region or live block, and in none outside the heap.
pub record Sound (start size : ℕ) (free live : List Region) : Type 0 where
  pub nodes : All (Ready (start + size)) free
  pub blocks : All (Ready (start + size)) live
  pub apart : (p : ℕ) → cover p free + cover p live ≤ holds p (record { addr = start; size = size })

All-get {ℓ} :
    (P : Region → Type ℓ) (xs : List Region) (i : ℕ) {x : Region}
    → get_elem? xs i ≡ some x
    → All P xs
    → P x
All-get P [] i e h = cc
All-get P (y ∷ xs) zero {x} e h = subst P (some-injective y x e) h.0
All-get P (y ∷ xs) (suc i) e h = All-get P xs i e h.1

All-erase_at {ℓ} :
    (P : Region → Type ℓ) (i : ℕ) (xs : List Region) → All P xs → All P (erase_at i xs)
All-erase_at P i [] h = h
All-erase_at P zero (x ∷ xs) h = h.1
All-erase_at P (suc i) (x ∷ xs) h = (h.0, All-erase_at P i xs h.1)

cover-erase_at :
    (p i : ℕ) (xs : List Region) (x : Region)
    → get_elem? xs i ≡ some x
    → cover p xs ≡ holds p x + cover p (erase_at i xs)
cover-erase_at p i [] x e = cc
cover-erase_at p zero (y ∷ xs) x e = ground arith
cover-erase_at p (suc i) (y ∷ xs) x e = omega (arith, cover-erase_at p i xs x e)

holds_ends :
    (start size a n : ℕ)
    → 0 < n
    → ((p : ℕ)
        → holds p (record { addr = a; size = n }) ≤ holds p (record { addr = start; size = size }))
    → a + n ≤ start + size
holds_ends start size a n h f = ground (arith, f (a + n - 1))

module _ (start size : ℕ) (aligned : start % 8 ≡ 0) (large : 16 ≤ size)
    (fits : start + size + 8 < word) where
  Sound-begin : (free : List Region) → init start size [] ≡ done free → Sound start size free []
  unfolding init
  Sound-begin free e =
      let put = add_free_region_lem start size [] aligned large (omega arith) in ground (arith, put)

  Sound-grant :
      (free live after : List Region) (ptr served align : ℕ)
      → Sound start size free live
      → 16 ≤ served
      → Grants (start + size) served align free ptr after
      → Sound start size after (record { addr = ptr; size = served } ∷ live)
  Sound-grant free live after ptr served align s hs g = record {
    nodes = g.nodes;
    blocks = ((record { aligned = g.unit; large = hs }, inside), s.blocks);
    apart = λ p. omega (arith, s.apart p, g.covers p);
  }
    where
      inside : ptr + served ≤ start + size
      inside =
          holds_ends start size ptr served (omega arith) (λ p. omega (arith, s.apart p, g.covers p))

  -- Both ways in which `alloc` returns.
  Sound-alloc :
      (free live free' : List Region) (l : Layout) (ptr : ℕ)
      → Sound start size free live
      → IsLayout l × Roomy (start + size) l
      → alloc l free ≡ done (ptr, free')
      → (ptr ≡ null → Sound start size free' live)
        × ((served align : ℕ)
            → size_align l ≡ done (served, align)
            → ptr ≢ null
            → Sound start size free' (record { addr = ptr; size = served } ∷ live))
  Sound-alloc free live free' l ptr s (v, room) e =
      let (n, m, sv, a, z, e') = list_alloc-Allocates (start + size) l free v room s.nodes in
      let at : ◌≡◌ {A = ℕ × List Region} (a.ptr, a.after) (ptr, free') =
        done-injective (sym e' ∙ e) in
      let outcome =
        subst {A = ℕ × List Region} (λ t. Outcome (start + size) n m free t.0 t.1) at a.outcome in
      elim outcome [
        | inl g ↦ (
          λ _. record {
            nodes = g.nodes;
            blocks = s.blocks;
            apart = λ p. omega (arith, s.apart p, g.covers p);
          },
          λ served align z' real.
              subst (λ w. Sound start size free' (record { addr = ptr; size = w } ∷ live))
                (ap {A = ℕ × ℕ} (λ t. t.0) (done-injective (sym z ∙ z')))
                (Sound-grant free live free' ptr n m s sv.holds_node g),
        )
        | inr (missing, kept, _) ↦ (
          λ _. subst (λ f. Sound start size f live) (sym kept) s,
          λ _ _ _ real. absurd (real missing),
        )
      ]

  Sound-release :
      (free live after : List Region) (i : ℕ) (block : Region) (l : Layout) (align : ℕ)
      → Sound start size free live
      → get_elem? live i ≡ some block
      → size_align l ≡ done (block.size, align)
      → dealloc block.addr l free ≡ done after
      → Sound start size after (erase_at i live)
  unfolding dealloc
  Sound-release free live after i block l align s e z d =
      let b : Ready (start + size) block = All-get (Ready (start + size)) live i e s.blocks in
      let put =
        add_free_region_lem block.addr block.size free b.0.aligned b.0.large (omega arith) in
      let same : done after ≡ done (block ∷ free) = sym d ∙ rw (z) put in
      subst (λ f. Sound start size f (erase_at i live)) (done-injective (sym same))
        (record {
          nodes = (b, s.nodes);
          blocks = All-erase_at (Ready (start + size)) i live s.blocks;
          apart = λ p. omega (arith, s.apart p, cover-erase_at p i live block e);
        })

  -- Of a heap that starts at a multiple of 8, has at least 16 bytes and ends 8 bytes below
  -- 2^64: in every state that calls reach, no address lies in two free regions or live blocks,
  -- in one of each, or in one that leaves the heap, and the free list consists of aligned
  -- nodes.
  pub Reach-Apart :
      {free live : List Region} → Reach start size free live → Sound start size free live
  Reach-Apart (begin {free} e) = Sound-begin free e
  Reach-Apart (grant {free} {free'} {live} l ptr served align r fit z e real) =
      (Sound-alloc free live free' l ptr (Reach-Apart r) fit e).1 served align z real
  Reach-Apart (refuse {free} {free'} {live} l r fit e) =
      (Sound-alloc free live free' l null (Reach-Apart r) fit e).0 refl
  Reach-Apart (release {free} {free'} {live} i block l align r e z d) =
      Sound-release free live free' i block l align (Reach-Apart r) e z d
