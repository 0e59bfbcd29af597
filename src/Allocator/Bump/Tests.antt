-- ===== src/Allocator/Bump/Tests.antt =====
-- The bump allocator of kernel/src/allocator/bump.rs on a heap of one page, and `align_up`.
use lemoncake.Base.{◌^◌, ◌≡◌, refl, arith, [], ◌∷◌, done}
use lemoncake.Allocator.Layout.{Layout, align_up, ceil_to, align_up_lem}
use lemoncake.Allocator.Bump.{Bump, new, init, alloc}
use lemoncake.Allocator.Bump.Alloc.{Fits, Allocates, bump_alloc-Allocates}
use lemoncake.Allocator.Bump.History.{Reach, Sound, Reach-Bounded}

abbrev page : Layout
page = record { size = 100; align = 16 }

abbrev bump : Bump
bump = record { heap_start = 4096; heap_end = 8192; next = 4097; allocations = 1 }

align_up_lem_example : align_up 4097 (2 ^ 4) ≡ done (ceil_to 4097 (2 ^ 4))
align_up_lem_example = align_up_lem 4097 4 (omega arith) (omega arith)

bump_alloc-Allocates_example : Allocates page bump
bump_alloc-Allocates_example =
    bump_alloc-Allocates page bump
      (record { positive = omega arith; started = omega arith; within = omega arith })
      (record {
        exponent = 4;
        small = omega arith;
        power = refl;
        room = omega arith;
        countable = omega arith;
      })

-- One block handed out of a heap at 4096.
abbrev used : Bump
used = record { heap_start = 4096; heap_end = 8192; next = 4196; allocations = 1 }

begun-Fits : Fits page (init 4096 4096 new)
unfolding init new
begun-Fits = record {
  exponent = 4;
  small = omega arith;
  power = refl;
  room = omega arith;
  countable = omega arith;
}

used-Reach : Reach 4096 4096 used (record { start = 4096; size = 100 } ∷ [])
unfolding init new alloc align_up
used-Reach = Reach.grant page 4096 Reach.begin begun-Fits refl (λ e. omega (arith, e))

Reach-Bounded_example : Sound 4096 4096 used (record { start = 4096; size = 100 } ∷ [])
Reach-Bounded_example = Reach-Bounded 4096 4096 (omega arith) (omega arith) used-Reach
