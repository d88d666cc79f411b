-- ===== src/Budget/Bounds.antt =====
-- What the budget model guarantees: the base fits the budget, and so does everything admitted.
use ai_daily_report.Prelude.{
  ℕ, ◌+◌, ◌*◌, ◌≤◌, ◌<◌, ◌≡◌, ◌↔◌, min, true, List, Text, u64_max, arith, ok,
}
use ai_daily_report.Contract.Profile.{ContextProfile}
use ai_daily_report.Budget.Sections.{
  omitted_summary_reservation, success_section_max, metadata_section_max, bounded_error_section_max,
  count_chars,
}
use ai_daily_report.Budget.Model.{
  ContextBudgetModel, RouteHint, exact_chars, new_model, reserved_delta, admits,
}

-- The reservation of the omitted summary is at most 12000 characters and a fifth of the budget.
pub omitted_summary_reservation_bounds :
    (g : ℕ) → (omitted_summary_reservation g ≤ 12000) × (5 * omitted_summary_reservation g ≤ g)
unfolding omitted_summary_reservation
omitted_summary_reservation_bounds g = omega arith

-- The model is built exactly when the fixed sections and the reservation fit the global budget of
-- a `u64` profile; its base is then their sum.
pub new_model_iff :
    (p : ContextProfile) (sections : List Text) (m : ContextBudgetModel)
    → p.global_max_chars ≤ u64_max
    → (new_model p sections ≡ ok m) ↔ (
        (exact_chars sections + omitted_summary_reservation p.global_max_chars ≤ p.global_max_chars)
        × (m.global_max_chars ≡ p.global_max_chars)
        × (m.per_file_max_chars ≡ p.per_file_max_chars)
        × (m.base_chars ≡ exact_chars sections + omitted_summary_reservation p.global_max_chars)
        × (m.omitted_reservation ≡ omitted_summary_reservation p.global_max_chars))
unfolding new_model
new_model_iff p sections m h = (λ e. ground arith, λ e. ground arith)

-- For a budget below the greatest `u64`, the saturating test is the exact one.
pub admits_iff :
    (m : ContextBudgetModel) (running delta : ℕ)
    → m.global_max_chars < u64_max
    → (admits m running delta ≡ true) ↔ (m.base_chars + running + delta ≤ m.global_max_chars)
unfolding admits
admits_iff m running delta h = (λ e. ground arith, λ e. ground arith)

pub reserved_delta_covers :
    (m : ContextBudgetModel) (r : RouteHint) (body : ℕ)
    → body ≤ min m.per_file_max_chars r.hint_max_excerpt_chars
    → (success_section_max (count_chars r.relative_path) body ≤ reserved_delta m r)
      × (metadata_section_max (count_chars r.relative_path) ≤ reserved_delta m r)
      × (bounded_error_section_max (count_chars r.relative_path) ≤ reserved_delta m r)
unfolding reserved_delta
reserved_delta_covers m r body h = omega arith
