-- ===== src/Examples/Planning.antt =====
-- The budget model and the admission plans at small inputs.
use mathlib.Core.List.{Permᴰ}
use ai_daily_report.Prelude.{
  ◌+◌, ◌≤◌, ◌≡◌, ◌≢◌, ◌↔◌, refl, false, List, [], ◌∷◌, map, Text, codes, All, sum_by, arith, ok,
}
use ai_daily_report.Prelude.Sorting.{HasDistinctKeys, IsSorted}
use ai_daily_report.Prelude.Order.{text_cmp}
use ai_daily_report.Nominal.{nominal_key, replace_char, key_cmp}
use ai_daily_report.Contract.Profile.{validate_settings, validate_context}
use ai_daily_report.Contract.Valid.{IsContext, validate_context_iff}
use ai_daily_report.Admission.Types.{PlanAction, NotParsedReason, RejectReason, ClassifiedPlan}
use ai_daily_report.Admission.Classification.{build_with_remaining, plan_key, file_key}
use ai_daily_report.Admission.Quotas.{admitted, charged, ChargeFits, build_with_remaining_quotas}
use ai_daily_report.Admission.Order.{
  plan_names, file_names, build_with_remaining_complete, build_with_remaining-canonical,
}
use ai_daily_report.Admission.Budgeted.{
  reserved, OnePass, slots_taken, build_with_remaining_budget, build_with_remaining-OnePass,
  build_with_remaining_slots,
}
use ai_daily_report.Nominal.Order.{nominal_key-injective, priority-separators}
use ai_daily_report.Budget.Model.{admits, max_excerpt_chars}
use ai_daily_report.Budget.Sections.{omitted_summary_fixed_chars, omitted_summary_reservation}
use ai_daily_report.Budget.Omitted.{OmittedCandidate, row_cost, build_plan, candidate_key}
use ai_daily_report.Budget.Slots.{build_plan_slots, build_plan-canonical}
use mathlib.Core.List.{Pairwise-pair}
use mathlib.Core.HLevel.{¬_prop}
use ai_daily_report.Admission.Content.{build_with_remaining as admit_content}
use ai_daily_report.Budget.Model.{RouteKind}
use ai_daily_report.Examples.Samples.{
  ascii_lower, daily_context, daily_settings, report_pdf, scan_pdf, notes_md, drawing_dwg,
  small_model, all_text,
}

-- The sample settings pass validation.
daily_settings_valid : validate_settings daily_settings ≡ ok tt
unfolding validate_settings text_cmp
daily_settings_valid = refl

abbrev plan : List ClassifiedPlan
plan =
    build_with_remaining ascii_lower daily_settings
      (notes_md ∷ drawing_dwg ∷ scan_pdf ∷ report_pdf ∷ []) 30 2 false

-- The first PDF takes the pages, the second finds too few, the note takes the last slot.
plan_actions :
    map (λ p. p.action) plan
    ≡ PlanAction.admit RouteKind.pdf
      ∷ PlanAction.not_parsed NotParsedReason.pdf_classification_page_quota_exhausted
      ∷ PlanAction.admit RouteKind.light_text
      ∷ PlanAction.reject RejectReason.profile_route_invariant
      ∷ []
unfolding build_with_remaining key_cmp text_cmp nominal_key
plan_actions = refl

validate_context_iff_example : (validate_context daily_context ≡ ok tt) ↔ IsContext daily_context
validate_context_iff_example = validate_context_iff daily_context

build_with_remaining_quotas_example :
    (sum_by admitted plan ≤ 2)
    × (sum_by charged plan ≤ 30)
    × All (ChargeFits ascii_lower daily_settings false) plan
build_with_remaining_quotas_example =
    build_with_remaining_quotas ascii_lower daily_settings
      (notes_md ∷ drawing_dwg ∷ scan_pdf ∷ report_pdf ∷ []) 30 2 false

build_with_remaining_complete_example :
    Permᴰ
      (map plan_names plan)
      (map file_names (notes_md ∷ drawing_dwg ∷ scan_pdf ∷ report_pdf ∷ []))
    × IsSorted key_cmp (plan_key ascii_lower) plan
build_with_remaining_complete_example =
    build_with_remaining_complete ascii_lower daily_settings false 2 30
      (notes_md ∷ drawing_dwg ∷ scan_pdf ∷ report_pdf ∷ [])

paths_differ : codes "notes.md" ≢ codes "report.pdf"
paths_differ e = ground arith

keys_differ : HasDistinctKeys key_cmp (file_key ascii_lower) (notes_md ∷ report_pdf ∷ [])
keys_differ = (Pairwise-pair (λ _ _. ¬_prop)).1 (λ e.
    paths_differ
      (nominal_key-injective ascii_lower (codes "notes.md") (codes "report.pdf") (codes ".md")
        (codes ".pdf") (codes "notes.md") (codes "report.pdf") e).0)

build_with_remaining-canonical_example :
    build_with_remaining ascii_lower daily_settings (notes_md ∷ report_pdf ∷ []) 30 2 false
    ≡ build_with_remaining ascii_lower daily_settings (report_pdf ∷ notes_md ∷ []) 30 2 false
build_with_remaining-canonical_example =
    build_with_remaining-canonical ascii_lower daily_settings false 2 30
      {files = notes_md ∷ report_pdf ∷ []} {files' = report_pdf ∷ notes_md ∷ []}
      (Permᴰ.swap refl refl) keys_differ

-- After one PDF is admitted the next file's reservation no longer fits.
admitted_actions :
    map (λ d. d.action) (admit_content small_model daily_settings all_text plan 500 1)
    ≡ PlanAction.admit RouteKind.pdf
      ∷ PlanAction.not_parsed NotParsedReason.pdf_classification_page_quota_exhausted
      ∷ PlanAction.admit RouteKind.light_text
      ∷ PlanAction.reject RejectReason.profile_route_invariant
      ∷ []
unfolding admit_content build_with_remaining key_cmp text_cmp nominal_key admits max_excerpt_chars
admitted_actions = refl

build_with_remaining_budget_example :
    small_model.base_chars
      + 500
      + reserved (admit_content small_model daily_settings all_text plan 500 1)
    ≤ 30000
build_with_remaining_budget_example =
    build_with_remaining_budget small_model daily_settings all_text plan 500 1 (omega arith)
      (omega arith)

build_with_remaining-OnePass_example :
    OnePass small_model daily_settings all_text 500 1 plan
      (admit_content small_model daily_settings all_text plan 500 1)
build_with_remaining-OnePass_example =
    build_with_remaining-OnePass small_model daily_settings all_text plan 500 1 (omega arith)
      (omega arith)

build_with_remaining_slots_example :
    slots_taken small_model daily_settings all_text plan
      (admit_content small_model daily_settings all_text plan 500 1)
    ≤ 1
build_with_remaining_slots_example =
    build_with_remaining_slots small_model daily_settings all_text plan 500 1 (omega arith)
      (omega arith)

abbrev omitted : Text → OmittedCandidate
omitted path = record { file_identity = path; relative_path = path; extension = codes ".md" }

abbrev omitted_files : List OmittedCandidate
omitted_files = omitted (codes "notes.md") ∷ omitted (codes "report.pdf") ∷ []

build_plan_slots_example :
    omitted_summary_fixed_chars
      + sum_by row_cost (build_plan ascii_lower omitted_files 1500).detail_slots
    ≤ (build_plan ascii_lower omitted_files 1500).reservation
unfolding omitted_summary_fixed_chars omitted_summary_reservation
build_plan_slots_example = (build_plan_slots ascii_lower omitted_files 1500 (omega arith)).0

omitted_keys_differ : HasDistinctKeys key_cmp (candidate_key ascii_lower) omitted_files
omitted_keys_differ = (Pairwise-pair (λ _ _. ¬_prop)).1 (λ e.
    paths_differ
      (nominal_key-injective ascii_lower (codes "notes.md") (codes "report.pdf") (codes ".md")
        (codes ".md") (codes "notes.md") (codes "report.pdf") e).0)

build_plan-canonical_example :
    build_plan ascii_lower omitted_files 1500
    ≡ build_plan ascii_lower (omitted (codes "report.pdf") ∷ omitted (codes "notes.md") ∷ []) 1500
build_plan-canonical_example =
    build_plan-canonical ascii_lower 1500 (Permᴰ.swap refl refl) omitted_keys_differ

priority-separators_example :
    (nominal_key ascii_lower (codes "a/logs/b.log") (codes ".log") []).priority
    ≡ (nominal_key ascii_lower (codes "a\\logs\\b.log") (codes ".log") []).priority
unfolding replace_char
priority-separators_example =
    priority-separators ascii_lower (codes "a/logs/b.log") (codes ".log") []
