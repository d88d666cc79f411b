-- ===== src/Budget/Model.antt =====
-- rust/scanner_core/src/budget_model.rs: the budget model, its routes and its admission test.
use ai_daily_report.Prelude.{
  ℕ, ◌+◌, ◌*◌, min, max, Bool, Option, none, some, List, Text, codes, length, leb, sum_by,
  saturating_add, checked_add, if◌then◌else◌, Result, ok, err, ◌>>=◌,
}
use ai_daily_report.Contract.Profile.{ContextProfile, NormalizedScannerSettings}
use ai_daily_report.Budget.Sections.{
  count_chars, omitted_summary_reservation, section_separator_chars, success_section_max,
  metadata_section_max, bounded_error_section_max,
}

pub data BudgetError : Type 0 where
  context_fixed_sections_over_budget budget_model_mismatch : BudgetError

unfoldable pub error_code : BudgetError → Text
error_code BudgetError.context_fixed_sections_over_budget =
    codes "CONTEXT_FIXED_SECTIONS_OVER_BUDGET"
error_code BudgetError.budget_model_mismatch = codes "BUDGET_MODEL_MISMATCH"

pub data RouteKind : Type 0 where
  light_text rust_office rust_xlsx pdf rust_xls rust_legacy_office : RouteKind

unfoldable pub backend : RouteKind → Text
backend RouteKind.light_text = codes "light_text_v2"
backend RouteKind.rust_office = codes "rust_office_oxide_v2"
backend RouteKind.rust_xlsx = codes "rust_xlsx_bounded_v2"
backend RouteKind.pdf = codes "rust_pdfium_v3"
backend RouteKind.rust_xls = codes "rust_xls_calamine_v3"
backend RouteKind.rust_legacy_office = codes "rust_legacy_office_v3"

unfoldable pub worker_lane : RouteKind → Text
worker_lane RouteKind.light_text = codes "rust_core"
worker_lane RouteKind.pdf = codes "rust_pdf_process_v3"
worker_lane _ = codes "rust_office_process_v3"

unfoldable pub max_excerpt_chars : RouteKind → NormalizedScannerSettings → ℕ
max_excerpt_chars RouteKind.light_text s = min s.parse.text.max_chars s.parse.text.excerpt_max_chars
max_excerpt_chars RouteKind.pdf s = s.parse.pdf.excerpt_max_chars
max_excerpt_chars _ s = s.parse.office.document_excerpt_max_chars

pub record RouteHint : Type 0 where
  pub relative_path : Text
  pub extension : Text
  pub hint_backend : Text
  pub hint_worker_lane : Text
  pub hint_max_excerpt_chars : ℕ

pub record ContextBudgetModel : Type 0 where
  pub global_max_chars : ℕ
  pub per_file_max_chars : ℕ
  pub base_chars : ℕ
  pub omitted_reservation : ℕ

-- The characters of the fixed sections, each with its separator.
unfoldable pub exact_chars : List Text → ℕ
unfolding count_chars
exact_chars fixed_sections =
    sum_by count_chars fixed_sections + length fixed_sections * section_separator_chars

abbrev ok_or {ℓ κ} : {A : Type ℓ} {E : Type κ} → Option A → E → Result E A
ok_or none e = err e
ok_or (some a) e = ok a

-- `ContextBudgetModel::new`
unfoldable pub new_model : ContextProfile → List Text → Result BudgetError ContextBudgetModel
new_model profile fixed_sections = do
  let omitted = omitted_summary_reservation profile.global_max_chars
  base ← ok_or (checked_add (exact_chars fixed_sections) omitted) BudgetError.budget_model_mismatch
  if leb base profile.global_max_chars
      then ok (record {
        global_max_chars = profile.global_max_chars;
        per_file_max_chars = profile.per_file_max_chars;
        base_chars = base;
        omitted_reservation = omitted;
      })
      else err BudgetError.context_fixed_sections_over_budget

-- The size argument of the source is not read.
unfoldable pub reserved_delta : ContextBudgetModel → RouteHint → ℕ
unfolding success_section_max metadata_section_max bounded_error_section_max
reserved_delta model route =
    let path_chars = count_chars route.relative_path in
    let body_max = min model.per_file_max_chars route.hint_max_excerpt_chars in
    max (max (success_section_max path_chars body_max) (metadata_section_max path_chars))
      (bounded_error_section_max path_chars)

unfoldable pub admits : ContextBudgetModel → ℕ → ℕ → Bool
admits model running delta =
    leb (saturating_add (saturating_add model.base_chars running) delta) model.global_max_chars

unfoldable pub check_rendered_within_reserved : ℕ → ℕ → Result BudgetError (Unit {0})
check_rendered_within_reserved rendered_chars reserved_chars =
    if leb rendered_chars reserved_chars then ok tt else err BudgetError.budget_model_mismatch
