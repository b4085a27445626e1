-- ===== src/Wrapper/Frame.antt =====
-- Relations between the states before and after the functions of src/cachau/decorator.py: what a
-- relation has to allow, and the functions that keep it.
mod Defs
pub mod Serving
pub mod Committing
pub mod Classifying
pub mod Computing
pub use Defs.*
