-- ===== src/Ledger.antt =====
-- The domain package `ledger`: it holds no storage.
pub mod Address
pub mod Asset
pub mod Posting
pub mod Volumes
pub mod Metadata
pub mod Tests
