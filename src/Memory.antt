-- ===== src/Memory.antt =====
-- `BootInfoFrameAllocator` of kernel/src/memory.rs: the frames of the memory map's usable regions,
-- one after another.
pub mod Frames
mod Tests
use lemoncake.Base.{ℕ, zero, suc, ◌+◌, ◌-◌, ◌*◌, ◌/◌, List, [], ◌∷◌, ◌++◌, Option, map, get_elem?}

-- `MemoryRegionKind`, of which one is told apart.
pub data RegionKind : Type 0 where
  usable other : RegionKind

pub record MemoryRegion : Type 0 where
  pub start : ℕ
  pub end : ℕ
  pub kind : RegionKind

pub record FrameAllocator : Type 0 where
  pub memory_map : List MemoryRegion
  pub next : ℕ

pub init : List MemoryRegion → FrameAllocator
init memory_map = record { memory_map = memory_map; next = 0 }

abbrev pub frame_size : ℕ
frame_size = 4096

-- `containing_address`; addresses are below 2^52, from where on `PhysAddr::new` panics.
abbrev pub frame_of : ℕ → ℕ
frame_of addr = addr / frame_size * frame_size

-- `n` addresses from `start` on.
pub steps : ℕ → ℕ → List ℕ
steps zero start = []
steps (suc n) start = start ∷ steps n (start + frame_size)

-- `(start..end).step_by(4096)`, which is empty where the end is not above the start
pub addresses : MemoryRegion → List ℕ
unfolding steps
addresses r = steps ((r.end - r.start + (frame_size - 1)) / frame_size) r.start

abbrev pub region_frames : RegionKind → List ℕ → List ℕ
region_frames RegionKind.usable addrs = map frame_of addrs
region_frames RegionKind.other addrs = []

pub frames : List MemoryRegion → List ℕ
unfolding addresses
frames [] = []
frames (r ∷ rs) = region_frames r.kind (addresses r) ++ frames rs

pub usable_frames : FrameAllocator → List ℕ
unfolding frames
usable_frames a = frames a.memory_map

-- `self.next` counts calls, and does not reach 2^64.
pub allocate_frame : FrameAllocator → Option ℕ × FrameAllocator
unfolding usable_frames
allocate_frame a = (get_elem? (usable_frames a) a.next, record a { next = a.next + 1 })
