-- ===== src/Allocator/Bump/History.antt =====
-- Any sequence of calls from `init`: the blocks that are out never overlap.
use lemoncake.Base.{ℕ, zero, suc, ◌+◌, ◌≤◌, ◌<◌, ◌≡◌, ◌≢◌, refl, sym, ◌∙◌, inl, inr, arith}
use lemoncake.Base.{List, [], ◌∷◌, length, done, word}
use lemoncake.Allocator.Layout.{Layout, null}
use lemoncake.Allocator.Bump.{Bump, new, init, alloc, dealloc}
use lemoncake.Allocator.Bump.Alloc.{IsValid, Fits, bump_alloc-Allocates}

pub record Block : Type 0 where
  pub start : ℕ
  pub size : ℕ

abbrev pub erase_at : ℕ → List Block → List Block
erase_at i [] = []
erase_at zero (x ∷ xs) = xs
erase_at (suc i) (x ∷ xs) = x ∷ erase_at i xs

-- The states that calls reach from a heap at `start` of `size` bytes, each with its live blocks,
-- the newest first. A caller frees only a block that is live.
pub data Reach (start size : ℕ) : Bump → List Block → Type 0 where
  begin : Reach start size (init start size new) []
  grant :
      {b b' : Bump} {live : List Block} (l : Layout) (ptr : ℕ)
      → Reach start size b live
      → Fits l b
      → alloc l b ≡ done (ptr, b')
      → ptr ≢ null
      → Reach start size b' (record { start = ptr; size = l.size } ∷ live)
  refuse :
      {b b' : Bump} {live : List Block} (l : Layout)
      → Reach start size b live
      → Fits l b
      → alloc l b ≡ done (null, b')
      → Reach start size b' live
  release :
      {b b' : Bump} {live : List Block} (i : ℕ) (l : Layout) (ptr : ℕ)
      → Reach start size b live
      → i < length live
      → dealloc ptr l b ≡ done b'
      → Reach start size b' (erase_at i live)

abbrev pub Below : ℕ → Block → Type 0
Below limit x = x.start + x.size ≤ limit

-- Each block ends before every newer one begins, and all lie between `floor` and `ceiling`.
abbrev pub Stacked : ℕ → ℕ → List Block → Type 0
Stacked floor ceiling [] = floor ≤ ceiling
Stacked floor ceiling (x ∷ xs) = Below ceiling x × Stacked floor x.start xs

pub record Sound (start size : ℕ) (b : Bump) (live : List Block) : Type 0 where
  pub from_start : b.heap_start ≡ start
  pub to_end : b.heap_end ≡ start + size
  pub valid : IsValid b
  pub counted : b.allocations ≡ length live
  pub stacked : Stacked start b.next live

Stacked-raise : (f c d : ℕ) (xs : List Block) → c ≤ d → Stacked f c xs → Stacked f d xs
Stacked-raise f c d [] h s = omega arith
Stacked-raise f c d (x ∷ xs) h s = (omega arith, s.1)

Stacked-floor : (f c : ℕ) (xs : List Block) → Stacked f c xs → f ≤ c
Stacked-floor f c [] s = s
Stacked-floor f c (x ∷ xs) s = omega (arith, Stacked-floor f x.start xs s.1)

Stacked-erase_at : (f c i : ℕ) (xs : List Block) → Stacked f c xs → Stacked f c (erase_at i xs)
Stacked-erase_at f c i [] s = s
Stacked-erase_at f c zero (x ∷ xs) s = Stacked-raise f x.start c xs (omega arith) s.1
Stacked-erase_at f c (suc i) (x ∷ xs) s = (s.0, Stacked-erase_at f x.start i xs s.1)

length-erase_at : (i : ℕ) (xs : List Block) → i < length xs → length xs ≡ length (erase_at i xs) + 1
length-erase_at i [] h = absurd (omega arith)
length-erase_at zero (x ∷ xs) h = omega arith
length-erase_at (suc i) (x ∷ xs) h = omega (arith, length-erase_at i xs (omega arith))

-- A heap that is empty again may begin anew.
Stacked-reset : (f c : ℕ) (xs : List Block) → length xs ≡ 0 → Stacked f f xs
Stacked-reset f c [] h = omega arith
Stacked-reset f c (x ∷ xs) h = absurd (omega arith)

module _ (start size : ℕ) (positive : 0 < start) (fits : start + size < word) where
  Sound-begin : Sound start size (init start size new) []
  unfolding init new
  Sound-begin = ground arith

  Sound-release :
      (b b' : Bump) (live : List Block) (i : ℕ) (l : Layout) (ptr : ℕ)
      → Sound start size b live
      → i < length live
      → dealloc ptr l b ≡ done b'
      → Sound start size b' (erase_at i live)
  unfolding dealloc
  Sound-release b b' live i l ptr s h e = ground (
    arith,
    length-erase_at i live h,
    Stacked-erase_at start b.next i live s.stacked,
    Stacked-floor start b.next live s.stacked,
    Stacked-reset start start (erase_at i live),
  )

  Sound-alloc :
      (b b' : Bump) (live : List Block) (l : Layout) (ptr : ℕ)
      → Sound start size b live
      → Fits l b
      → alloc l b ≡ done (ptr, b')
      → (ptr ≢ null → Sound start size b' (record { start = ptr; size = l.size } ∷ live))
        × (ptr ≡ null → Sound start size b' live)
  Sound-alloc b b' live l ptr s f e =
      let a = bump_alloc-Allocates l b s.valid f in
      let same : done (ptr, b') ≡ done (a.ptr, a.after) = sym e ∙ a.returns in
      elim a.outcome [
        | inl g ↦ (
          λ real. ground (arith, same, Stacked-raise start b.next ptr live),
          λ is_null. absurd (g.real (ground (arith, same))),
        )
        | inr r ↦ (λ real. absurd (real (ground (arith, same))), λ is_null. ground (arith, same))
      ]

  -- Of a heap that does not start at 0 and ends below 2^64: in every state that calls reach,
  -- the heap bounds are those of `init`, the counter is the number of live blocks, and the
  -- live blocks lie in the heap, each one ending before any newer one begins.
  pub Reach-Bounded :
      {b : Bump} {live : List Block} → Reach start size b live → Sound start size b live
  Reach-Bounded begin = Sound-begin
  Reach-Bounded (grant {b} {b'} {live} l ptr r f e real) =
      (Sound-alloc b b' live l ptr (Reach-Bounded r) f e).0 real
  Reach-Bounded (refuse {b} {b'} {live} l r f e) =
      (Sound-alloc b b' live l null (Reach-Bounded r) f e).1 refl
  Reach-Bounded (release {b} {b'} {live} i l ptr r h e) =
      Sound-release b b' live i l ptr (Reach-Bounded r) h e
