-- ===== src/Examples/Admitting.antt =====
-- One file that stage B admitted is appended.
use ai_daily_report.Prelude.{
  length, ℕ, ◌+◌, ◌≤◌, ◌≡◌, refl, inr, arith, [], ◌∷◌, Text, codes, ok, sum_by, All, show,
}
use ai_daily_report.Contract.Types.{ReportMode}
use ai_daily_report.Audit.Types.{ParsedContentAudit}
use ai_daily_report.Budget.Sections.{
  count_chars, omitted_summary_reservation, success_section_max, metadata_section_max,
  bounded_error_section_max, heading_chars, key_value_line,
}
use ai_daily_report.Budget.Model.{
  ContextBudgetModel, RouteHint, exact_chars, new_model, reserved_delta,
}
use ai_daily_report.Budget.Omitted.{OmittedSummaryPlan}
use ai_daily_report.Decision.Actions.{DecidedFile}
use ai_daily_report.Examples.Samples.{ascii_lower, daily_context}
use ai_daily_report.Examples.Deciding.{decided_note}
use ai_daily_report.Rendering.Sections.{
  format, render_run_summary, render_notice, fixed_context_sections, report_mode_text,
}
use ai_daily_report.Rendering.Building.{Building}
use ai_daily_report.Rendering.Context.{build_files, new_building, opening}
use ai_daily_report.Rendering.OnePass.{IsPriced, reserved_for}
use ai_daily_report.Rendering.Closes.{Closes, build_files-Closes}

abbrev lengths : ParsedContentAudit → ℕ
lengths a = 400

abbrev keep_spaces : Text → Text
keep_spaces text = text

abbrev model : ContextBudgetModel
model = record {
  global_max_chars = 500000;
  per_file_max_chars = 100000;
  base_chars = 12334;
  omitted_reservation = 12000;
}

model_eq :
    new_model daily_context (fixed_context_sections daily_context ReportMode.daily 1) ≡ ok model
unfolding new_model fixed_context_sections render_run_summary render_notice report_mode_text format
    show exact_chars count_chars omitted_summary_reservation
model_eq = refl

abbrev route : DecidedFile → RouteHint
route f = record {
  relative_path = f.decision.relative_path;
  extension = f.evidence.extension;
  hint_backend = codes "light_text_v2";
  hint_worker_lane = codes "rust_core";
  hint_max_excerpt_chars = 4000;
}

priced : All (IsPriced model daily_context route) (decided_note ∷ [])
priced = (
  inr (
    record { limit = refl; path = refl; content = omega arith },
    record { reason = omega arith; backend = omega arith; extension = omega arith },
  ),
  tt,
)

admitted :
    model.base_chars + sum_by (reserved_for model route) (decided_note ∷ [])
    ≤ daily_context.global_max_chars
unfolding reserved_delta success_section_max metadata_section_max bounded_error_section_max
    heading_chars key_value_line count_chars
admitted = omega arith

abbrev no_omitted : OmittedSummaryPlan
no_omitted = record { reservation = 12000; detail_slots = [] }

reserved : no_omitted.reservation ≡ omitted_summary_reservation daily_context.global_max_chars
unfolding omitted_summary_reservation
reserved = refl

few_digits : length (show 1) + length (show 0) ≤ 10
unfolding show
few_digits = omega arith

build_files-Closes_example :
    (built : Building) × (build_files ascii_lower keep_spaces lengths daily_context no_omitted
        (new_building ascii_lower keep_spaces lengths
          (opening ascii_lower keep_spaces lengths daily_context ReportMode.daily 1 1 0))
        (decided_note ∷ [])
      ≡ ok built)
    × Closes ascii_lower keep_spaces lengths daily_context no_omitted built
build_files-Closes_example =
    build_files-Closes ascii_lower keep_spaces lengths (λ t. omega arith) model daily_context
      no_omitted route ReportMode.daily 1 1 0 (decided_note ∷ []) (omega arith) reserved model_eq
      priced admitted few_digits
