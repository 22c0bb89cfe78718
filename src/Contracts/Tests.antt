-- ===== src/Contracts/Tests.antt =====
-- The contracts crate run on small inputs, with the theorems about it at those inputs.
pub mod Lines
pub mod Trees
pub mod Documents
pub mod Disks
