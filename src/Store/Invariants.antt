-- ===== src/Store/Invariants.antt =====
-- What holds of the submissions and the progress after every history of the store.
pub mod Rows
pub mod Lifecycle
pub mod Tally
pub mod Progress
pub mod Totals
pub mod History
pub mod Links
pub mod Keys
pub mod Decodable
