-- ===== src/Fingerprint.antt =====
-- src/cachau/fingerprint.py: the identity of a function.
pub mod Code
pub mod Framing
pub mod Names
pub mod Unique
pub mod Canonical
pub mod Objects
pub mod Functions
pub mod Unseen
pub mod Depth
pub mod Termination
pub mod Bindings
pub mod Identity
pub mod Captured
pub mod Bound
pub mod Complete
pub mod Unwrap
pub mod Chains
pub mod Globals
pub mod Reported
