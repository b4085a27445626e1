-- ===== src/Decoration.antt =====
-- src/cachau/decorator.py: what decorating a function does.
pub mod Startup
pub mod Purge
pub mod Readmission
pub mod Rehydrate
pub mod Reclaim
pub mod Configure
pub mod Valid
pub mod Wrapped
pub mod Disjoint
