-- ===== src/Control.antt =====
-- src/cachau/decorator.py: the class `CacheControl` and the variables that `_wrap` closes over.
mod Setting
mod Tallying
unfoldable pub use Setting.*
unfoldable pub use Tallying.*
