-- ===== src/Store/Tables.antt =====
-- crates/satunera-store/migrations/0001_initial.up.sql: the tables, and the statements of sqlite.rs as
-- what SQL says that they do to them. A NOT NULL column is a `Text` or an integer, a nullable one an
-- `Option`. A statement that a constraint refuses changes nothing.
mod Rows
mod Constraints
pub mod Statements
pub use Rows.*
unfoldable pub use Constraints.*
