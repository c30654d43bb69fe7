-- ===== src/Signal.antt =====
-- backend/src/repo-manager/signal: the pure library that reads ELF data and judges breaks.
pub mod Versions
pub mod Paths
pub mod Plugins
pub mod Analysis
pub mod Sections
pub mod Sonames
pub mod Latest
pub mod Listings
pub mod Owners
pub mod Graph
pub mod Broken
pub mod Abi
pub mod Fixability
mod AnalysisTests
mod ListingTests
mod PluginTests
mod Tests
mod ScannerTests
