-- ===== src/Audit.antt =====
-- rust/worker_contract/src/content_audit.rs: source ranges, content units and parsed audits.
pub mod Types
pub mod Validate
pub mod Builder
pub mod Append
pub mod Built
pub mod Runs
pub mod Push
