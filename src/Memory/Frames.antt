-- ===== src/Memory/Frames.antt =====
-- Which frames kernel/src/memory.rs hands out.
use lemoncake.Base.{
  ℕ, zero, suc, ◌+◌, ◌-◌, ◌*◌, ◌/◌, ◌%◌, ◌≤◌, ◌<◌, List, [], ◌∷◌, ◌++◌, Option, some, none, map,
  get_elem?, All,
}
use lemoncake.Base.{◌≡◌, refl, sym, ap, ◌∙◌, arith}
use mathlib.Core.Path.{subst}
use lemoncake.Memory.{
  RegionKind, MemoryRegion, FrameAllocator, init, frame_of, steps, addresses, region_frames, frames,
  usable_frames, allocate_frame,
}

-- Regions that begin at a frame, in the order of their addresses, as the bootloader lists them.
abbrev pub Ordered : ℕ → List MemoryRegion → Type 0
Ordered floor [] = Unit
Ordered floor (r ∷ rs) =
    (floor ≤ r.start) × (r.start % 4096 ≡ 0) × (r.start ≤ r.end) × Ordered r.end rs

-- Increasing addresses, from `floor` on.
abbrev pub Rising : ℕ → List ℕ → Type 0
Rising floor [] = Unit
Rising floor (x ∷ xs) = (floor ≤ x) × Rising (x + 4096) xs

-- A whole frame of a usable region, where a region that ends inside a frame counts up to the end of
-- this frame.
pub data InUsable (x : ℕ) : List MemoryRegion → Type 0 where
  here :
      (r : MemoryRegion) (rs : List MemoryRegion)
      → r.kind ≡ RegionKind.usable
      → r.start ≤ x
      → x + 4096 ≤ (r.end + 4095) / 4096 * 4096
      → x % 4096 ≡ 0
      → InUsable x (r ∷ rs)
  there : (r : MemoryRegion) (rs : List MemoryRegion) → InUsable x rs → InUsable x (r ∷ rs)

up : ℕ → ℕ
up a = (a + 4095) / 4096 * 4096

Rising-weaken : (f g : ℕ) (xs : List ℕ) → f ≤ g → Rising g xs → Rising f xs
Rising-weaken f g [] h r = tt
Rising-weaken f g (x ∷ xs) h (a, b) = (omega (arith, h, a), b)

Rising-steps :
    (n start : ℕ) (ys : List ℕ)
    → start % 4096 ≡ 0
    → Rising (start + n * 4096) ys
    → Rising start (map frame_of (steps n start) ++ ys)
unfolding steps
Rising-steps zero start ys h r = Rising-weaken start (start + 0 * 4096) ys (omega arith) r
Rising-steps (suc n) start ys h r =
    let e : start / 4096 * 4096 ≡ start = omega (arith, h) in
    let next : start + suc n * 4096 ≡ start + 4096 + n * 4096 = omega arith in
    (omega (arith, h), rw e (Rising-steps n (start + 4096) ys (omega (arith, h)) (rw next at r)))

frames-Rising :
    (floor : ℕ) (rs : List MemoryRegion) → Ordered floor rs → Rising (up floor) (frames rs)
unfolding frames up addresses
frames-Rising floor [] o = tt
frames-Rising floor (r ∷ rs) (above, begins, whole, rest) =
    kinds r.kind (frames-Rising r.end rs rest)
  where
    kinds :
        (k : RegionKind)
        → Rising (up r.end) (frames rs)
        → Rising (up floor) (region_frames k (addresses r) ++ frames rs)
    kinds RegionKind.other tail =
        Rising-weaken (up floor) (up r.end) (frames rs) (omega (arith, above, whole)) tail
    kinds RegionKind.usable tail =
        let n = (r.end - r.start + 4095) / 4096 in
        let e : up r.end ≡ r.start + n * 4096 = omega (arith, begins, whole) in
        Rising-weaken (up floor) r.start (map frame_of (steps n r.start) ++ frames rs)
          (omega (arith, above, begins)) (Rising-steps n r.start (frames rs) begins (rw e at tail))

Rising-get :
    (floor : ℕ) (xs : List ℕ) (i x : ℕ) → Rising floor xs → get_elem? xs i ≡ some x → floor ≤ x
Rising-get floor [] i x r e = cc
Rising-get floor (y ∷ ys) zero x (a, b) e = ground arith
Rising-get floor (y ∷ ys) (suc i) x (a, b) e = omega (arith, a, Rising-get (y + 4096) ys i x b e)

Rising-apart :
    (floor : ℕ) (xs : List ℕ) (i j x y : ℕ)
    → Rising floor xs
    → i < j
    → get_elem? xs i ≡ some x
    → get_elem? xs j ≡ some y
    → x + 4096 ≤ y
Rising-apart floor [] i j x y r h e f = cc
Rising-apart floor (z ∷ zs) zero zero x y r h e f = absurd (omega arith)
Rising-apart floor (z ∷ zs) zero (suc j) x y (a, b) h e f =
    let above = Rising-get (z + 4096) zs j y b f in ground arith
Rising-apart floor (z ∷ zs) (suc i) zero x y r h e f = absurd (omega arith)
Rising-apart floor (z ∷ zs) (suc i) (suc j) x y (a, b) h e f =
    Rising-apart (z + 4096) zs i j x y b (omega (arith, h)) e f

InUsable-steps :
    (n start : ℕ) (r : MemoryRegion) (rs : List MemoryRegion)
    → r.kind ≡ RegionKind.usable
    → start % 4096 ≡ 0
    → r.start ≤ start
    → start + n * 4096 < r.end + 4096
    → All (λ x. InUsable x (r ∷ rs)) (map frame_of (steps n start))
unfolding steps
InUsable-steps zero start r rs k h low high = tt
InUsable-steps (suc n) start r rs k h low high =
    let e : start / 4096 * 4096 ≡ start = omega (arith, h) in
    (
      rw e (here r rs k low (omega (arith, high, h)) h),
      InUsable-steps n (start + 4096) r rs k (omega (arith, h)) (omega (arith, low))
          (omega (arith, high)),
    )

All-append : (P : ℕ → Type 0) (xs ys : List ℕ) → All P xs → All P ys → All P (xs ++ ys)
All-append P [] ys h k = k
All-append P (x ∷ xs) ys (a, b) k = (a, All-append P xs ys b k)

All-mono : (P Q : ℕ → Type 0) → ((x : ℕ) → P x → Q x) → (xs : List ℕ) → All P xs → All Q xs
All-mono P Q f [] h = tt
All-mono P Q f (x ∷ xs) (a, b) = (f x a, All-mono P Q f xs b)

All-get : (P : ℕ → Type 0) (xs : List ℕ) (i : ℕ) {x : ℕ} → All P xs → get_elem? xs i ≡ some x → P x
All-get P [] i h e = cc
All-get P (y ∷ ys) zero {x} (a, b) e = let same : y ≡ x = cc in subst P same a
All-get P (y ∷ ys) (suc i) (a, b) e = All-get P ys i b e

frames-InUsable :
    (floor : ℕ) (rs : List MemoryRegion) → Ordered floor rs → All (λ x. InUsable x rs) (frames rs)
unfolding frames addresses
frames-InUsable floor [] o = tt
frames-InUsable floor (r ∷ rs) (above, begins, whole, rest) = kinds r.kind refl (
    All-mono (λ x. InUsable x rs) (λ x. InUsable x (r ∷ rs)) (λ x u. there r rs u) (frames rs)
      (frames-InUsable r.end rs rest))
  where
    kinds :
        (k : RegionKind)
        → r.kind ≡ k
        → All (λ x. InUsable x (r ∷ rs)) (frames rs)
        → All (λ x. InUsable x (r ∷ rs)) (region_frames k (addresses r) ++ frames rs)
    kinds RegionKind.other e tail = tail
    kinds RegionKind.usable e tail =
        All-append (λ x. InUsable x (r ∷ rs)) (map frame_of (addresses r)) (frames rs)
          (InUsable-steps ((r.end - r.start + 4095) / 4096) r.start r rs e begins (omega arith)
            (omega (arith, whole)))
          tail

-- The states of the allocator over a memory map, with the frames that it has handed out so far, the
-- newest first.
pub data Drawn (regions : List MemoryRegion) : FrameAllocator → List ℕ → Type 0 where
  begin : Drawn regions (init regions) []
  drawn :
      {a a' : FrameAllocator} {out : List ℕ} (frame : ℕ)
      → Drawn regions a out
      → allocate_frame a ≡ (some frame, a')
      → Drawn regions a' (frame ∷ out)
  ended :
      {a a' : FrameAllocator} {out : List ℕ}
      → Drawn regions a out
      → allocate_frame a ≡ (none, a')
      → Drawn regions a' out

-- Each frame is above all that were handed out before.
abbrev pub Falling : List ℕ → Type 0
Falling [] = Unit
Falling (x ∷ xs) = All (λ y. y + 4096 ≤ x) xs × Falling xs

-- What holds of every state.
record Counted (regions : List MemoryRegion) (a : FrameAllocator) (out : List ℕ) : Type 0 where
  pub fixed : a.memory_map ≡ regions
  pub taken : All (λ y. (i : ℕ) × (i < a.next) × (get_elem? (frames regions) i ≡ some y)) out
  pub inside : All (λ y. InUsable y regions) out
  pub falling : Falling out

Taken : List MemoryRegion → ℕ → ℕ → Type 0
Taken regions next y = (i : ℕ) × (i < next) × (get_elem? (frames regions) i ≡ some y)

Taken-next :
    (regions : List MemoryRegion) (n m y : ℕ) → m ≡ n + 1 → Taken regions n y → Taken regions m y
unfolding Taken
Taken-next regions n m y e (i, h, at) = (i, omega (arith, e, h), at)

module _ (regions : List MemoryRegion) (ordered : Ordered 0 regions) where
  Drawn-Counted : {a : FrameAllocator} {out : List ℕ} → Drawn regions a out → Counted regions a out
  unfolding init allocate_frame usable_frames Taken
  Drawn-Counted begin = record { fixed = refl; taken = tt; inside = tt; falling = tt }
  Drawn-Counted (drawn {a} {a'} {out} frame d e) =
      let c = Drawn-Counted d in
      let after : record a { next = a.next + 1 } ≡ a' =
        ap (λ (p : Option ℕ × FrameAllocator). p.1) e in
      let next_eq : a'.next ≡ a.next + 1 = sym (ap (λ (p : FrameAllocator). p.next) after) in
      let map_eq : a'.memory_map ≡ a.memory_map =
        sym (ap (λ (p : FrameAllocator). p.memory_map) after) in
      let got : get_elem? (frames regions) a.next ≡ some frame =
        ap (λ m. get_elem? (frames m) a.next) (sym c.fixed)
        ∙ ap (λ (p : Option ℕ × FrameAllocator). p.0) e in
      record {
        fixed = map_eq ∙ c.fixed;
        taken = (
          (a.next, omega (arith, next_eq), got),
          All-mono (Taken regions a.next) (Taken regions a'.next)
              (λ y. Taken-next regions a.next a'.next y next_eq) out c.taken,
        );
        inside = (
          All-get (λ y. InUsable y regions) (frames regions) a.next
              (frames-InUsable 0 regions ordered) got,
          c.inside,
        );
        falling = (
          All-mono (Taken regions a.next) (λ y. y + 4096 ≤ frame)
              (λ y (i, h, at).
                Rising-apart (up 0) (frames regions) i a.next y frame
                  (frames-Rising 0 regions ordered) h at got)
              out c.taken,
          c.falling,
        );
      }
  Drawn-Counted (ended {a} {a'} {out} d e) =
      let c = Drawn-Counted d in
      let after : record a { next = a.next + 1 } ≡ a' =
        ap (λ (p : Option ℕ × FrameAllocator). p.1) e in
      let next_eq : a'.next ≡ a.next + 1 = sym (ap (λ (p : FrameAllocator). p.next) after) in
      let map_eq : a'.memory_map ≡ a.memory_map =
        sym (ap (λ (p : FrameAllocator). p.memory_map) after) in
      record {
        fixed = map_eq ∙ c.fixed;
        taken =
            All-mono (Taken regions a.next) (Taken regions a'.next)
              (λ y. Taken-next regions a.next a'.next y next_eq) out c.taken;
        inside = c.inside;
        falling = c.falling;
      }

  -- Over a memory map whose regions are in the order of their addresses and begin at a frame: after
  -- any number of calls of `allocate_frame`, every frame that was handed out begins in a usable
  -- region and ends in it or, when the region ends inside a frame, at the end of that frame; and none
  -- was handed out twice, since each is at least a frame above all before it.
  pub Drawn-Falling :
      {a : FrameAllocator} {out : List ℕ}
      → Drawn regions a out
      → All (λ y. InUsable y regions) out × Falling out
  Drawn-Falling d = let c = Drawn-Counted d in (c.inside, c.falling)
