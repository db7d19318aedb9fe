-- ===== src/Platform/DeviceTree.antt =====
-- kernel_core/src/platform/device_tree: the parser of device tree blobs and the searches in them.
pub mod Bytes
pub mod Fdt
pub mod Tokens
pub mod Values
pub mod Search
pub mod Sample
mod Examples
