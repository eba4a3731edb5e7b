-- ===== src/Daemon.antt =====
-- The daemon's HTTP side (internal/daemon).
pub mod WebSessions
