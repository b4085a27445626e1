-- ===== src/Policy.antt =====
-- src/cachau/policy.py: `LRUBudget`, one function's entry sizes against a byte budget.
-- `sizes` is the `OrderedDict`, least recently used key first. Sizes are the byte counts that
-- `_commit_result` lets through, which are not negative.
mod Defs
pub mod Eviction
pub mod Bounds
pub mod Admission
mod Examples
unfoldable pub use Defs.*
