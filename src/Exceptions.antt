-- ===== src/Exceptions.antt =====
-- kernel_core/src/exceptions: the handling of interrupts.
pub mod Handler
