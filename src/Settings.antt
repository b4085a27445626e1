-- ===== src/Settings.antt =====
-- src/cachau/durations.py and src/cachau/sizes.py: the settings that a decoration parses.
pub mod Defs
pub mod Durations
pub mod Sizes
pub mod Estimate
unfoldable pub use Defs.*
