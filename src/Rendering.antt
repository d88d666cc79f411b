-- ===== src/Rendering.antt =====
-- rust/scanner_core/src/compressor.rs: excerpts of single files and the sections of the context.
pub mod Excerpt
pub mod Cuts
pub mod Sections
pub mod Summary
pub mod Totals
pub mod Details
pub mod Fits
pub mod Building
pub mod Context
pub mod Decided
pub mod Added
pub mod Accounts
pub mod OnePass
pub mod Closes
