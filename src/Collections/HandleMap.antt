-- ===== src/Collections/HandleMap.antt =====
-- kernel_core/src/collections/handle_map.rs: the map from handles to values, a tree of tables that
-- is walked by the bytes of the handle. The operations stand for a caller that no other thread
-- disturbs. An `Arc<T>` is its value: reference counts and the freeing of memory are not modelled.
pub mod Table
pub mod Map
pub mod Paths
pub mod Bytes
pub mod Shape
pub mod Laws
pub mod Insert
pub mod Remove
pub mod Alias
mod Examples
