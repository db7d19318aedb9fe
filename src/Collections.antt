-- ===== src/Collections.antt =====
-- kernel_core/src/collections: handles, and the map from handles to values.
pub mod HandleAllocator
pub mod HandleMap
