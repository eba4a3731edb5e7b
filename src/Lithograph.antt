-- ===== src/Lithograph.antt =====
-- Explicit transactions on the graph database: internal/lithograph.
pub mod Transactions
