-- ===== src/Process.antt =====
-- kernel_core/src/process: threads and their scheduling.
pub mod Scheduler
pub mod Thread
