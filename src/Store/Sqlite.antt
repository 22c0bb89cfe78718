-- ===== src/Store/Sqlite.antt =====
-- crates/satunera-store/src/sqlite.rs: the SQLite implementation of `Store`. The operations are in the
-- children, by table; `Actions` has what they share.
pub mod Actions
pub mod Rules
pub mod Users
pub mod Problems
pub mod Submissions
pub mod Runs
