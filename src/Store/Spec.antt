-- ===== src/Store/Spec.antt =====
-- What crates/satunera-store promises of its state, apart from how sqlite.rs computes it.
pub mod Effect
pub mod Steps
pub mod Transactions
pub mod Operations
pub mod Statements
pub mod Keeping
