-- ===== src/Contracts/Source.antt =====
-- crates/satunera-contracts/src/source.rs: reading a problem directory without knowing where it came
-- from: the normalisation of paths, the tree held in memory, and the directory on disk.
mod Normalize
mod Tar
unfoldable pub use Normalize.*
unfoldable pub use Tar.*
pub mod Disk
pub mod Dir
pub mod Interface
pub mod Safety
pub mod Stable
pub mod Tree
pub mod Laws
