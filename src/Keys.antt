-- ===== src/Keys.antt =====
-- src/cachau/keys.py: the bytes that are hashed.
pub mod Framing
pub mod Values
pub mod Refusal
pub mod Tags
pub mod Order
pub mod Decoding
pub mod Same
pub mod Unique
pub mod Permuted
pub mod Reordered
pub mod Arguments
pub mod Agree
pub mod Frames
pub mod Concrete
pub mod SameObject
pub mod Bag
pub mod DataObject
