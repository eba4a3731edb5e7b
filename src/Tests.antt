-- ===== src/Tests.antt =====
-- The theorems at concrete inputs, and runs of the code.
mod Patches
mod RefTexts
mod ErrorBodies
mod Sessions
mod Transactions
mod Locks
mod LocatorTexts
mod Rotations
mod OAuthFlows
mod Models
mod Renames
