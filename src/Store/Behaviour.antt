-- ===== src/Store/Behaviour.antt =====
-- What the operations of crates/satunera-store/src/sqlite.rs do, on every branch.
pub mod Checks
pub mod Lifecycle
pub mod Atomicity
pub mod Transitions
pub mod Roundtrips
pub mod Catalog
pub mod Stranded
pub mod Reads
pub mod Listings
pub mod Attempts
pub mod Standing
