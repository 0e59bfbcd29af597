-- ===== src/Allocator/LinkedList/Alloc.antt =====
-- What one call of `alloc` does: the block and the free regions stay apart, and nothing panics.
use lemoncake.Base.{ℕ, zero, suc, ◌+◌, ◌-◌, ◌*◌, ◌/◌, ◌^◌, ◌%◌, ◌≤◌, ◌<◌, ◌≡◌, ◌⊎◌, inl, inr}
use lemoncake.Base.{refl, ap, ◌∙◌, arith, max, List, ◌∷◌, All, Option, none, some, done}
use lemoncake.Base.{word, ltb, Bool-cases, bit_and, mask_low, pow-add}
use lemoncake.Allocator.Layout.{Layout, null, align_up_lem, ceil_to, IsCeil, ceil_to-IsCeil}
use lemoncake.Allocator.Layout.{from_size_align, align_to, pad_to_align}
use lemoncake.Allocator.LinkedList.{
  Region, Found, size_align, add_free_region, find_region, alloc_sized, alloc,
}
use lemoncake.Allocator.LinkedList.Cover.{holds, cover, total}
use lemoncake.Allocator.LinkedList.Search.{Ready, Usable, Answers, find_region-Answers}
use native.Mathlib.Nat.{one-le-pow, mul-mod_left, pow-le-pow_right}

-- A layout that `core` can build, also after its alignment is raised to that of a node.
pub record IsLayout (l : Layout) : Type 0 where
  pub exponent : ℕ
  pub small : exponent ≤ 62
  pub power : l.align ≡ 2 ^ exponent
  pub bounded : l.size + max l.align 8 ≤ 2 ^ 63

-- The size and the alignment that a layout is served with.
pub record Serves (l : Layout) (size align : ℕ) : Type 0 where
  pub exponent : ℕ
  pub small : exponent ≤ 62
  pub node : 3 ≤ exponent
  pub power : align ≡ 2 ^ exponent
  pub align_eq : align ≡ max l.align 8
  pub size_ge : l.size ≤ size
  pub holds_node : 16 ≤ size
  pub whole : size % 8 ≡ 0
  pub bounded : size ≤ l.size + align + 16

mul-pow-mod : (q j : ℕ) → 3 ≤ j → q * 2 ^ j % 8 ≡ 0
mul-pow-mod q j h =
    ap (λ t. q * 2 ^ t % 8) split
    ∙ ap (λ t. t % 8) (omega (arith, ap (λ (t : ℕ). q * t) (pow-add (j - 3) 3)))
    ∙ mul-mod_left (q * 2 ^ (j - 3)) 8
  where
    split : j ≡ j - 3 + 3
    split = omega arith

max-pow : (k : ℕ) → max (2 ^ k) 8 ≡ 2 ^ max k 3
max-pow zero = refl
max-pow (suc zero) = refl
max-pow (suc (suc zero)) = refl
max-pow (suc (suc (suc k))) =
    let j = suc (suc (suc k)) in
    let more : 2 ^ 3 ≤ 2 ^ j =
      pow-le-pow_right {n = 2} (omega arith) {i = 3} {j = j} (omega arith) in
    let e : max j 3 ≡ j = omega arith in rw e (omega arith)

power_test : (k : ℕ) → bit_and (2 ^ k) (2 ^ k - 1) ≡ 0
power_test k =
    let e : 1 * 2 ^ k + 0 ≡ 2 ^ k = omega arith in
    rw e at (mask_low k 1 0 (one-le-pow k 2 (omega arith)))

-- Every layout that `core` can build, also after its alignment is raised to 8, is served with a
-- power of two that is at least its alignment and 8, and with a whole number of 8-byte units
-- that holds the request and a list node.
pub size_align-Serves :
    (l : Layout)
    → IsLayout l
    → (size align : ℕ) × (size_align l ≡ done (size, align)) × Serves l size align
unfolding size_align align_to from_size_align pad_to_align
size_align-Serves l v = (
  max (ceil_to l.size up) 16,
  up,
  ground (arith, test, one-le-pow v.exponent 2),
  record {
    exponent = max v.exponent 3;
    small = omega arith;
    node = omega arith;
    power = power;
    align_eq = refl;
    size_ge = omega arith;
    holds_node = omega arith;
    whole = ground (arith, whole);
    bounded = omega arith;
  },
)
  where
    up : ℕ
    up = max l.align 8

    power : up ≡ 2 ^ max v.exponent 3
    power = rw v.power (max-pow v.exponent)

    test : bit_and up (up - 1) ≡ 0
    test = rw power (power_test (max v.exponent 3))

    ceil : IsCeil l.size up (ceil_to l.size up)
    ceil = ceil_to-IsCeil l.size up (omega arith)

    whole : ceil_to l.size up % 8 ≡ 0
    whole = rw power (mul-pow-mod _ (max v.exponent 3) (omega arith))

-- A block was handed out, and taken from the free memory.
pub record Grants (limit size align : ℕ) (regions : List Region) (ptr : ℕ) (after : List Region)
    : Type 0 where
  pub aligned : ptr % align ≡ 0
  pub unit : ptr % 8 ≡ 0
  pub covers :
      (p : ℕ) → cover p after + holds p (record { addr = ptr; size = size }) ≤ cover p regions
  pub nodes : All (Ready limit) after
  pub kept : total after + size ≤ total regions
  pub wasted : total regions < total after + size + align

abbrev pub Outcome : ℕ → ℕ → ℕ → List Region → ℕ → List Region → Type 0
Outcome limit size align regions ptr after =
    Grants limit size align regions ptr after
    ⊎ (ptr ≡ null) × (after ≡ regions) × All (λ r. ¬ Usable size align r) regions

pub record Allocates (limit size align : ℕ) (regions : List Region) : Type 0 where
  pub ptr : ℕ
  pub after : List Region
  pub returns : alloc_sized size align regions ≡ done (ptr, after)
  pub outcome : Outcome limit size align regions ptr after

pub add_free_region_lem :
    (addr size : ℕ) (regions : List Region)
    → addr % 8 ≡ 0
    → 16 ≤ size
    → addr + 8 < word
    → add_free_region addr size regions ≡ done (record { addr = addr; size = size } ∷ regions)
unfolding add_free_region
add_free_region_lem addr size regions ha hs hw =
    let e : ceil_to addr 8 ≡ addr = omega arith in
    rw (align_up_lem addr 3 (omega arith) hw, e) (ground arith)

-- The search and the split of the region it finds, behind `size_align`: the free memory and the
-- block stay apart, and less than one alignment of bytes is lost in front of the block.
pub alloc_sized-Allocates :
    (limit size k : ℕ) (regions : List Region)
    → 3 ≤ k
    → k ≤ 64
    → limit + 2 ^ k + size < word
    → size % 8 ≡ 0
    → All (Ready limit) regions
    → Allocates limit size (2 ^ k) regions
unfolding alloc_sized
alloc_sized-Allocates limit size k regions low small room whole nodes =
    let (o, found, a) = find_region-Answers limit size k small room regions nodes in serve o found a
  where
    serve :
        (o : Option Found)
        → find_region size (2 ^ k) regions ≡ done o
        → Answers limit size (2 ^ k) regions o
        → Allocates limit size (2 ^ k) regions
    serve none found a = record {
      ptr = null;
      after = regions;
      returns = rw found;
      outcome = inr (refl, refl, a);
    }
    serve (some (r, start, rest)) found a = elim (Bool-cases (ltb 0 excess)) [
      | inl more ↦ record {
        ptr = start;
        after = record { addr = start + size; size = excess } ∷ rest;
        returns = rw found (
            ground (
              arith,
              a.start,
              a.usable.fits,
              a.node,
              add_free_region_lem (start + size) excess rest,
              a.usable.rest,
              unit,
            ));
        outcome = inl (record {
          aligned = rw a.start ceil.aligned;
          unit = begins;
          covers = λ p. ground (arith, a.covers p, ceil, a.start, a.usable);
          nodes = (ground (arith, unit, a.usable, a.start, a.node), a.nodes);
          kept = ground (arith, a.totals, a.usable, ceil, a.start);
          wasted = ground (arith, a.totals, a.usable, ceil, a.start);
        });
      }
      | inr less ↦ record {
        ptr = start;
        after = rest;
        returns = rw found (ground (arith, a.start, a.usable, a.node));
        outcome = inl (record {
          aligned = rw a.start ceil.aligned;
          unit = begins;
          covers = λ p. ground (arith, a.covers p, ceil, a.start, a.usable);
          nodes = a.nodes;
          kept = ground (arith, a.totals, a.usable, ceil, a.start);
          wasted = ground (arith, a.totals, a.usable, ceil, a.start);
        });
      }
    ]
      where
        excess : ℕ
        excess = r.addr + r.size - (start + size)

        ceil : IsCeil r.addr (2 ^ k) (ceil_to r.addr (2 ^ k))
        ceil = ceil_to-IsCeil r.addr (2 ^ k) (one-le-pow k 2 (omega arith))

        begins : start % 8 ≡ 0
        begins = rw a.start (mul-pow-mod ((r.addr + 2 ^ k - 1) / 2 ^ k) k low)

        unit : (start + size) % 8 ≡ 0
        unit = omega (arith, begins)

-- A request that a heap below `limit` can round without overflow.
abbrev pub Roomy : ℕ → Layout → Type 0
Roomy limit l = limit + 2 * max l.align 8 + l.size + 16 < word

-- For a layout that `core` can build, on a list of nodes below a `limit` that is far enough from
-- 2^64 for the layout, `alloc` does not panic. Either it hands out an aligned block that holds
-- the request, is taken from the free memory byte for byte, and leaves a list of nodes, or it
-- returns null, where no free region can hold the block and leave nothing or a node behind it.
pub list_alloc-Allocates :
    (limit : ℕ) (l : Layout) (regions : List Region)
    → IsLayout l
    → Roomy limit l
    → All (Ready limit) regions
    → (size align : ℕ) × Serves l size align
      × (a : Allocates limit size align regions) × (size_align l ≡ done (size, align))
      × (alloc l regions ≡ done (a.ptr, a.after))
unfolding alloc
list_alloc-Allocates limit l regions v room nodes =
    let (size, align, e, s) = size_align-Serves l v in
    let a : Allocates limit size align regions = rw s.power (
      alloc_sized-Allocates limit size s.exponent regions s.node (omega (arith, s.small))
        (omega (arith, s.bounded, s.align_eq, s.power)) s.whole nodes) in
    (size, align, s, a, e, rw e a.returns)
