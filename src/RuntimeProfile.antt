-- ===== src/RuntimeProfile.antt =====
-- The ownership of an instance: internal/runtimeprofile.
pub mod InstanceLock
