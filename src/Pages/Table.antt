-- ===== src/Pages/Table.antt =====
-- Address spaces whose page tables behave: what a mapper does while frames are left.
use lemoncake.Base.{ℕ, ◌+◌, ◌≤◌, ◌<◌, ◌≡◌, ◌==◌, if◌then◌else◌, Option, none, some, inr}
use lemoncake.Pages.AddressSpace.{Space, Flags}

-- A page that is not mapped can be mapped while frames for three new tables are left, and a page
-- that is mapped can be unmapped; no other page changes.
pub record Tables (space : Space) : Type 0 where
  pub table : space.State → ℕ → Option ℕ
  pub left : space.State → ℕ
  pub frames :
      (s : space.State)
      → 0 < left s
      → (frame : ℕ) × (s' : space.State) × (space.allocate_frame s ≡ (some frame, s'))
        × (left s ≤ left s' + 1)
        × ((p : ℕ) → table s' p ≡ table s p)
  pub maps :
      (page frame : ℕ) (flags : Flags) (s : space.State)
      → 3 ≤ left s
      → table s page ≡ none
      → (s' : space.State) × (space.map_to page frame flags s ≡ (inr tt, s'))
        × (left s ≤ left s' + 3)
        × ((p : ℕ) → table s' p ≡ (if p == page then some frame else table s p))
  pub unmaps :
      (page frame : ℕ) (s : space.State)
      → table s page ≡ some frame
      → (s' : space.State) × (space.unmap page s ≡ (inr frame, s'))
        × ((p : ℕ) → table s' p ≡ (if p == page then none else table s p))
