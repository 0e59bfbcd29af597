-- ===== src/Allocator/LinkedList/Cover.antt =====
-- How often a list of regions covers an address. That free memory and blocks never overlap, and
-- that they stay inside the heap, are inequations about this count.
use lemoncake.Base.{ℕ, ◌+◌, ltb, leb, ◌&&◌, if◌then◌else◌}
use lemoncake.Base.{List, [], ◌∷◌}
use lemoncake.Allocator.LinkedList.{Region}

-- 1 if the region holds the address `p`, else 0.
abbrev pub holds : ℕ → Region → ℕ
holds p r = if leb r.addr p && ltb p (r.addr + r.size) then 1 else 0

abbrev pub cover : ℕ → List Region → ℕ
cover p [] = 0
cover p (r ∷ rs) = holds p r + cover p rs

-- The free bytes.
abbrev pub total : List Region → ℕ
total [] = 0
total (r ∷ rs) = r.size + total rs

abbrev pub erase_at : ℕ → List Region → List Region
erase_at i [] = []
erase_at ℕ.zero (x ∷ xs) = xs
erase_at (ℕ.suc i) (x ∷ xs) = x ∷ erase_at i xs
