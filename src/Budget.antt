-- ===== src/Budget.antt =====
-- rust/scanner_core/src/budget_model.rs: the character budget of a context. Sections holds the
-- worst-case sizes, Model the budget and its admission test, Omitted the plan of the omitted-files
-- summary, Bounds and Slots what they guarantee.
pub mod Sections
pub mod Model
pub mod Omitted
pub mod Bounds
pub mod Slots
