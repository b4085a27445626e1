-- ===== src/Observation.antt =====
-- src/cachau/decorator.py: the methods of `CacheControl` that users call.
pub mod Explain
pub mod Forget
pub mod Quarantine
pub mod Honest
pub mod Purity
pub mod Totals
pub mod Inspect
pub mod Conservation
pub mod Listing
pub mod Profiling
pub mod Rounds
pub mod Measured
pub mod Tidy
pub mod Restored
