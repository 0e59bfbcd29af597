-- ===== src/Allocator/LinkedList/Refines.antt =====
-- The linked list allocator implements the abstract heap.
use lemoncake.Base.{
  ℕ, zero, suc, ◌+◌, ◌%◌, ◌^◌, ◌≤◌, ◌<◌, ◌≡◌, ◌≢◌, max, refl, sym, ap, ◌∙◌, inl, inr, arith,
  Bool-cases, leb,
}
use lemoncake.Base.{List, [], ◌∷◌, All, map, done, done-injective, word}
use mathlib.Core.Path.{subst}
use native.Mathlib.Nat.{one-le-pow}
use lemoncake.Allocator.Layout.{Layout, null}
use lemoncake.Allocator.Contract.{Call, Heap, Apart}
use lemoncake.Allocator.Contract
use lemoncake.Allocator.LinkedList.{Region, size_align, alloc}
use lemoncake.Allocator.LinkedList.Cover.{holds, cover, erase_at}
use lemoncake.Allocator.LinkedList.Search.{Ready}
use lemoncake.Allocator.LinkedList.Alloc.{IsLayout, Outcome, Roomy, list_alloc-Allocates}
use lemoncake.Allocator.LinkedList.History.{Reach, Sound, Reach-Apart}

-- The abstract view of a block.
abbrev pub place : Region → ℕ × ℕ
place r = (r.addr, r.size)

map-erase_at :
    (i : ℕ) (live : List Region)
    → map place (erase_at i live) ≡ Contract.erase_at i (map place live)
map-erase_at i [] = refl
map-erase_at zero (x ∷ xs) = refl
map-erase_at (suc i) (x ∷ xs) = ap (λ rest. place x ∷ rest) (map-erase_at i xs)

-- Two regions that no address is in together.
holds-Apart :
    (a b : Region)
    → 0 < a.size
    → 0 < b.size
    → ((p : ℕ) → holds p a + holds p b ≤ 1)
    → Apart (place a) (place b)
holds-Apart a b ha hb h = elim (Bool-cases (leb a.addr b.addr)) [
  | inl e ↦ ground (arith, h b.addr)
  | inr e ↦ ground (arith, h a.addr)
]

covers-Apart :
    (block : Region) (live : List Region) (limit : ℕ)
    → 0 < block.size
    → All (Ready limit) live
    → ((p : ℕ) → holds p block + cover p live ≤ 1)
    → All (Apart (place block)) (map place live)
covers-Apart block [] limit h k c = tt
covers-Apart block (x ∷ xs) limit h ((node, inside), k) c = (
  holds-Apart block x h (omega (arith, node.large)) (λ p. omega (arith, c p)),
  covers-Apart block xs limit h k (λ p. omega (arith, c p)),
)

-- A multiple of the rounded alignment is one of the layout's.
unit_mod : (addr e : ℕ) → addr % max (2 ^ e) 8 ≡ 0 → addr % 8 ≡ 0 → addr % 2 ^ e ≡ 0
unit_mod addr zero h k = omega arith
unit_mod addr (suc zero) h k = omega (arith, k)
unit_mod addr (suc (suc zero)) h k = omega (arith, k)
unit_mod addr (suc (suc (suc e))) h k =
    let big : 8 ≤ 2 ^ suc (suc (suc e)) = omega (arith, one-le-pow e 2) in
    let same : max (2 ^ suc (suc (suc e))) 8 ≡ 2 ^ suc (suc (suc e)) = omega (arith, big) in
    rw same at h

-- The calls of a history and their answers, the last one first.
unfoldable pub calls :
    {start size : ℕ} {free live : List Region} → Reach start size free live → List Call
calls (Reach.begin e) = []
calls (Reach.grant l ptr served align r fit z e real) = Call.granted l ptr ∷ calls r
calls (Reach.refuse l r fit e) = Call.refused l ∷ calls r
calls (Reach.release i block l align r e z d) = Call.freed i ∷ calls r

module _ (start size : ℕ) (aligned : start % 8 ≡ 0) (large : 16 ≤ size)
    (fits : start + size + 8 < word) where
  grant_aligned :
      (l : Layout) (free free' live : List Region) (ptr served align : ℕ)
      → Sound start size free live
      → IsLayout l × Roomy (start + size) l
      → size_align l ≡ done (served, align)
      → alloc l free ≡ done (ptr, free')
      → ptr ≢ null
      → (l.size ≤ served) × (ptr % l.align ≡ 0)
  grant_aligned l free free' live ptr served align s (v, room) z e real =
      let (n, m, sv, a, z', e') = list_alloc-Allocates (start + size) l free v room s.nodes in
      let at : ◌≡◌ {A = ℕ × List Region} (a.ptr, a.after) (ptr, free') =
        done-injective (sym e' ∙ e) in
      let size_eq : n ≡ served = ap {A = ℕ × ℕ} (λ t. t.0) (done-injective (sym z' ∙ z)) in
      elim (subst {A = ℕ × List Region} (λ t. Outcome (start + size) n m free t.0 t.1) at
        a.outcome) [
          | inl g ↦
              let unit : m ≡ max (2 ^ v.exponent) 8 = sv.align_eq ∙ ap (λ x. max x 8) v.power in
              let whole =
                unit_mod ptr v.exponent (sym (ap (λ x. ptr % x) unit) ∙ g.aligned) g.unit in
              (omega (arith, sv.size_ge, size_eq), ap (λ x. ptr % x) v.power ∙ whole)
          | inr (missing, _, _) ↦ absurd (real missing)
        ]

  -- Of a heap that starts at a multiple of 8, has at least 16 bytes and ends 8 bytes below 2^64: the
  -- live blocks that any sequence of calls leaves are those that the abstract heap has after the same
  -- calls with the same answers. So each block that was handed out holds its request, has its
  -- alignment, is in the heap, and was apart from every block that was live at that time.
  pub Reach-Heap :
      {free live : List Region} (r : Reach start size free live)
      → Heap start size (calls r) (map place live)
  unfolding calls
  Reach-Heap (Reach.begin e) = Heap.begin
  Reach-Heap (Reach.grant {free} {free'} {live} l ptr served align r fit z e real) =
      let (holding, at) =
        grant_aligned l free free' live ptr served align
          (Reach-Apart start size aligned large fits r) fit z e real in
      let s =
        Reach-Apart start size aligned large fits (Reach.grant l ptr served align r fit z e real) in
      let block : Region = record { addr = ptr; size = served } in
      let (node, inside) = s.blocks.0 in
      let within = s.apart ptr in
      let begins : start ≤ ptr = ground (arith, node.large, within) in
      Heap.grant l ptr served (Reach-Heap r) (
        holding,
        at,
        begins,
        inside,
        covers-Apart block live (start + size) (omega (arith, node.large)) s.blocks.1
            (λ p. ground (arith, s.apart p)),
      )
  Reach-Heap (Reach.refuse l r fit e) = Heap.refuse l (Reach-Heap r)
  Reach-Heap (Reach.release {free} {free'} {live} i block l align r e z d) =
      subst (Heap start size (Call.freed i ∷ calls r)) (sym (map-erase_at i live))
        (Heap.free i (Reach-Heap r))
