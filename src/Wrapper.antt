-- ===== src/Wrapper.antt =====
-- src/cachau/decorator.py: the functions that `_wrap` closes over, and the wrapper itself.
pub mod Frame
pub mod Registry
pub mod Freshness
pub mod Accounting
pub mod Clock
pub mod Budget
pub mod Durable
pub mod Committed
mod Action
mod Serve
mod Commit
mod Compute
mod Call
unfoldable pub use Action.*
unfoldable pub use Serve.*
unfoldable pub use Commit.*
unfoldable pub use Compute.*
unfoldable pub use Call.*
