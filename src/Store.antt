-- ===== src/Store.antt =====
-- crates/satunera-store: durable state for the judge.
pub mod Role
pub mod Status
pub mod Codec
pub mod Error
pub mod Model
pub mod Tables
pub mod Sqlite
pub mod Spec
pub mod Invariants
pub mod Behaviour
pub mod Blob
pub mod Tests
