-- ===== src/Memory/Tests.antt =====
-- A memory map of three regions, for kernel/src/memory.rs.
use lemoncake.Base.{refl, arith, List, [], ◌∷◌, All}
use lemoncake.Memory.{
  RegionKind, MemoryRegion, FrameAllocator, init, allocate_frame, usable_frames, frames, addresses,
  steps,
}
use lemoncake.Memory.Frames.{InUsable, Drawn, Falling, Drawn-Falling}

abbrev three_regions : List MemoryRegion
three_regions =
    record { start = 4096; end = 8192; kind = RegionKind.usable }
    ∷ record { start = 8192; end = 40960; kind = RegionKind.other }
    ∷ record { start = 40960; end = 50000; kind = RegionKind.usable }
    ∷ []

abbrev after_two : FrameAllocator
after_two = record { memory_map = three_regions; next = 2 }

two_frames : Drawn three_regions after_two (40960 ∷ 4096 ∷ [])
unfolding init allocate_frame usable_frames frames addresses steps
two_frames = Drawn.drawn 40960 (Drawn.drawn 4096 Drawn.begin refl) refl

Drawn-Falling_example :
    All (λ y. InUsable y three_regions) (40960 ∷ 4096 ∷ []) × Falling (40960 ∷ 4096 ∷ [])
Drawn-Falling_example = Drawn-Falling three_regions (omega arith) two_frames
