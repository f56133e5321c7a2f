-- ===== src/Storage.antt =====
-- The package `storage`: the tables of one ledger as a record of lists, and the operations on them.
pub mod Schema
pub mod Locking
pub mod Guards
pub mod Sweep
pub mod Moves
pub mod Rows
pub mod Encoding
pub mod Log
pub mod Assets
pub mod Commit
pub mod Policy
pub mod Closure
pub mod Revert
pub mod Projection
pub mod Conservation
pub mod Effective
pub mod Metadata
pub mod Runs
pub mod Page
pub mod Bulk
pub mod Recovery
pub mod Tests
