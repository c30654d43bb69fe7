-- ===== src/DiffScan.antt =====
-- The scan of merge requests, backend/src/diff-scan/, one module for each part of it.
pub mod Heredocs
pub mod Hunks
pub mod ResponseCache
pub mod Scopes
pub mod Typosquat
mod DiffTests
mod Tests
