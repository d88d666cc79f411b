-- ===== src/RunStore.antt =====
-- rust/scanner_core/src/store: the runs of the scanner, their attempts and the one engine lease.
pub mod Types
pub mod Rows
pub mod Lease
pub mod Begin
pub mod Operations
pub mod Consistent
pub mod Kept
pub mod Finished
pub mod Started
pub mod Begun
pub mod Steps
pub mod Keys
pub mod Keyed
pub mod Owned
pub mod Progress
pub mod Starts
pub mod Replayed
pub mod Final
