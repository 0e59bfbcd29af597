-- ===== src/Allocator/Contract.antt =====
-- What the kernel expects of `#[global_allocator]`: an abstract heap that knows only its live blocks,
-- each as its address and its size. The allocators of kernel/src/allocator refine it.
use lemoncake.Base.{ℕ, zero, suc, ◌+◌, ◌%◌, ◌≤◌, ◌≡◌, ◌⊎◌, List, [], ◌∷◌, All}
use lemoncake.Allocator.Layout.{Layout}

abbrev pub erase_at {ℓ} : {A : Type ℓ} → ℕ → List A → List A
erase_at i [] = []
erase_at zero (x ∷ xs) = xs
erase_at (suc i) (x ∷ xs) = x ∷ erase_at i xs

abbrev pub Apart : ℕ × ℕ → ℕ × ℕ → Type 0
Apart (a, n) (b, m) = (a + n ≤ b) ⊎ (b + m ≤ a)

-- A call and its answer: a request that got a block at an address, one that got none, and the release
-- of the live block with a number.
pub data Call : Type 0 where
  granted : Layout → ℕ → Call
  refused : Layout → Call
  freed : ℕ → Call

-- The live blocks of a heap at `start` of `size` bytes after these calls, the last one first. A
-- request may be refused, and then nothing changes; otherwise its block is any aligned place in the
-- heap that holds the request and is apart from all live blocks.
pub data Heap (start size : ℕ) : List Call → List (ℕ × ℕ) → Type 0 where
  begin : Heap start size [] []
  grant :
      {calls : List Call} {live : List (ℕ × ℕ)} (l : Layout) (addr n : ℕ)
      → Heap start size calls live
      → (l.size ≤ n)
        × (addr % l.align ≡ 0)
        × (start ≤ addr)
        × (addr + n ≤ start + size)
        × All (Apart (addr, n)) live
      → Heap start size (Call.granted l addr ∷ calls) ((addr, n) ∷ live)
  refuse :
      {calls : List Call} {live : List (ℕ × ℕ)} (l : Layout)
      → Heap start size calls live
      → Heap start size (Call.refused l ∷ calls) live
  free :
      {calls : List Call} {live : List (ℕ × ℕ)} (i : ℕ)
      → Heap start size calls live
      → Heap start size (Call.freed i ∷ calls) (erase_at i live)
