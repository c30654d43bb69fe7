-- ===== src/Scan.antt =====
-- The scan of the repository manager: backend/src/repo-manager/scan.
pub mod Baseline
pub mod Closure
pub mod Records
pub mod Outputs
pub mod Context
pub mod Attribution
pub mod PluginBreaks
pub mod Triggers
pub mod Releases
pub mod Missed
pub mod Detection
pub mod Providers
pub mod Loading
pub mod Coverage
mod Tests
mod AttributionTests
mod TriggerTests
mod CoverageTests
