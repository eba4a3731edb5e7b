-- ===== src/Observability.antt =====
-- The program's own log: internal/observability.
pub mod Rotation
