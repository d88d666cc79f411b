-- ===== src/Planner.antt =====
-- rust/scanner_core/src/classifier.rs and planner.rs: the route, the action and the timeout of each
-- discovered file, before any budget.
pub mod Classifier
pub mod Plan
pub mod Mirror
