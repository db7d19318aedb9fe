-- ===== src/Platform.antt =====
-- kernel_core/src/platform: what the kernel learns of the machine that it runs on.
pub mod DeviceTree
pub mod Cpu
