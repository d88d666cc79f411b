-- ===== src/Decision.antt =====
-- rust/scanner_core/src/decision.rs: the evidence of a file and the action that the context takes.
pub mod ErrorText
pub mod Evidence
pub mod Actions
pub mod Matrix
pub mod Sorted
