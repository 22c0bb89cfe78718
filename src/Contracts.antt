-- ===== src/Contracts.antt =====
-- crates/satunera-contracts: the frozen interface between problem authors and the judge.
pub mod Difficulty
pub mod Language
pub mod Verdict
pub mod Json
pub mod Source
pub mod Schema
pub mod Load
pub mod Config
pub mod Env
pub mod Problem
pub mod Tests
