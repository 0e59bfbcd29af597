-- ===== src/Allocator/LinkedList/Search.antt =====
-- `find_region` takes out a region that can hold the allocation, or shows that there is none.
use lemoncake.Base.{ℕ, ◌&&◌, ◌+◌, ◌-◌, ◌^◌, ◌%◌, ◌≤◌, ◌<◌, ◌≡◌, ◌⊎◌, inl, inr, refl, arith}
use lemoncake.Base.{List, [], ◌∷◌, All, Option, none, some, done, word, ltb, Bool-cases}
use lemoncake.Allocator.Layout.{align_up_lem, ceil_to, IsCeil, ceil_to-IsCeil}
use lemoncake.Allocator.LinkedList.{Region, Found, skip, alloc_from_region, find_region}
use lemoncake.Allocator.LinkedList.Cover.{holds, cover, total}
use native.Mathlib.Nat.{one-le-pow}

-- A region that `add_free_region` accepts.
pub record IsNode (r : Region) : Type 0 where
  pub aligned : r.addr % 8 ≡ 0
  pub large : 16 ≤ r.size

-- The aligned block fits, and what is left behind it is nothing or can hold a node.
pub record Usable (size align : ℕ) (r : Region) : Type 0 where
  pub fits : ceil_to r.addr align + size ≤ r.addr + r.size
  pub rest :
      (ceil_to r.addr align + size ≡ r.addr + r.size)
      ⊎ (ceil_to r.addr align + size + 16 ≤ r.addr + r.size)

-- A node that ends at `limit` or before.
abbrev pub Ready : ℕ → Region → Type 0
Ready limit r = IsNode r × (r.addr + r.size ≤ limit)

pub record Takes (limit size align : ℕ) (regions : List Region) (f : Found) : Type 0 where
  pub usable : Usable size align f.0
  pub node : Ready limit f.0
  pub start : f.1 ≡ ceil_to f.0.addr align
  pub nodes : All (Ready limit) f.2
  pub covers : (p : ℕ) → cover p regions ≡ holds p f.0 + cover p f.2
  pub totals : total regions ≡ f.0.size + total f.2

abbrev pub Answers : ℕ → ℕ → ℕ → List Region → Option Found → Type 0
Answers limit size align regions none = All (λ r. ¬ Usable size align r) regions
Answers limit size align regions (some f) = Takes limit size align regions f

module _ (limit size k : ℕ) (small : k ≤ 64) (room : limit + 2 ^ k + size < word) where
  abbrev align : ℕ
  align = 2 ^ k

  -- The test of one region decides `Usable`.
  alloc_from_region_lem :
      (r : Region)
      → r.addr + r.size ≤ limit
      → (alloc_from_region r size align ≡ done (some (ceil_to r.addr align))) × Usable size align r
        ⊎ (alloc_from_region r size align ≡ done none) × ¬ Usable size align r
  unfolding alloc_from_region
  alloc_from_region_lem r low =
      rw (align_up_lem r.addr k small (omega arith)) (elim (Bool-cases (ltb end up)) [
        | inl short ↦ inr (ground arith, λ u. ground arith)
        | inr long ↦ elim (Bool-cases (ltb 0 (end - up) && ltb (end - up) 16)) [
          | inl scrap ↦ inr (ground arith, λ u. ground arith)
          | inr left ↦ inl (ground arith, record { fits = ground arith; rest = ground arith })
        ]
      ])
    where
      end : ℕ
      end = r.addr + r.size

      up : ℕ
      up = ceil_to r.addr align + size

      ceil : IsCeil r.addr align (ceil_to r.addr align)
      ceil = ceil_to-IsCeil r.addr align (one-le-pow k 2 (omega arith))

  Answers-skip :
      (r : Region) (rs : List Region) (o : Option Found)
      → Ready limit r
      → ¬ Usable size align r
      → Answers limit size align rs o
      → Answers limit size align (r ∷ rs) (skip r o)
  Answers-skip r rs none ready other a = (other, a)
  Answers-skip r rs (some f) ready other a = record {
    usable = a.usable;
    node = a.node;
    start = a.start;
    nodes = (ready, a.nodes);
    covers = λ p. omega (arith, a.covers p);
    totals = omega (arith, a.totals);
  }

  -- On a list of nodes below `limit`, for an alignment 2^k with k at most 64 and where limit,
  -- alignment and size sum to less than 2^64, the search does not panic: it takes out a usable
  -- region and keeps the others, or answers nothing where no region is usable.
  pub find_region-Answers :
      (regions : List Region)
      → All (Ready limit) regions
      → (o : Option Found) × (find_region size align regions ≡ done o)
        × Answers limit size align regions o
  unfolding find_region
  find_region-Answers [] h = (none, refl, tt)
  find_region-Answers (r ∷ rs) h = elim (alloc_from_region_lem r h.0.1) [
    | inl (e, u) ↦ (
      some (r, ceil_to r.addr align, rs),
      rw e,
      record {
        usable = u;
        node = h.0;
        start = refl;
        nodes = h.1;
        covers = λ p. refl;
        totals = refl;
      },
    )
    | inr (e, other) ↦
        let (o, found, a) = find_region-Answers rs h.1 in
        (skip r o, rw (e, found), Answers-skip r rs o h.0 other a)
  ]
