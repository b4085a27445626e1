-- ===== src/Disk.antt =====
-- src/cachau/disk.py: `DiskBackend`, one file for each entry.
pub mod Json
pub mod Header
pub mod Prefix
pub mod Validate
pub mod Files
pub mod Store
pub mod Atomic
pub mod RoundTrip
pub mod Laws
pub mod Damage
