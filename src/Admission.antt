-- ===== src/Admission.antt =====
-- rust/scanner_core/src/admission.rs: the two frozen admission plans. Types holds the data, Routing
-- the decision on a single file, Classification stage A and Content stage B; the other modules hold
-- what the stages guarantee.
pub mod Types
pub mod Routing
pub mod Classification
pub mod Content
pub mod Quotas
pub mod Order
pub mod Budgeted
