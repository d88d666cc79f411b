-- ===== src/Allocation.antt =====
-- rust/scanner_core/src/source_allocation.rs: excerpts of all files within one budget of characters.
pub mod Pieces
pub mod Priority
pub mod Bundles
pub mod Order
pub mod Rounds
pub mod Excerpts
pub mod Taken
pub mod Terminates
pub mod Bounds
