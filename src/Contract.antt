-- ===== src/Contract.antt =====
-- rust/scanner_contract/src/lib.rs: the types that the scanner's parts exchange, and their checks.
pub mod Checks
pub mod Profile
pub mod Types
pub mod Valid
