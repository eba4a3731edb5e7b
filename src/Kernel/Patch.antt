-- ===== src/Kernel/Patch.antt =====
-- internal/kernel/patch_parser.go: Git patches over the canonical YAML of objects.
pub mod Text
pub mod Hunks
pub mod Tokens
pub mod Header
pub mod Parser
pub mod Document
