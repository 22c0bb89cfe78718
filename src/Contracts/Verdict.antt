-- ===== src/Contracts/Verdict.antt =====
-- crates/satunera-contracts/src/verdict.rs: the result side of the contract with `validation.sh`.
mod Cases
pub mod Output
pub mod Laws
pub mod Stdout
unfoldable pub use Cases.*
