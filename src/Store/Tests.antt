-- ===== src/Store/Tests.antt =====
-- The store run on a small history, with the theorems about it at that history.
pub mod Sample
pub mod Gathered
pub mod Histories
pub mod Calls
pub mod States
pub mod Blobs
pub mod Listings
