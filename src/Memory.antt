-- ===== src/Memory.antt =====
-- kernel_core/src/memory: what of the memory management is modelled.
pub mod SubtractRanges
pub mod Buddy
pub mod PageTable
pub mod Addresses
