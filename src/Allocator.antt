-- ===== src/Allocator.antt =====
-- The allocators of kernel/src/allocator: what they share is in `Layout`.
pub mod Layout
pub mod Contract
pub mod Bump
pub mod LinkedList
pub mod FixedSizeBlock
