-- ===== src/Kernel.antt =====
-- The kernel (internal/kernel).
pub mod Errors
pub mod Refs
pub mod Patch
pub mod Model
pub mod Maintenance
