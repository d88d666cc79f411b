-- ===== src/Admission/Content.antt =====
-- rust/scanner_core/src/admission.rs: stage B, `ContentAdmissionPlan`. The map from identities to
-- classifier results is a function.
use ai_daily_report.Prelude.{
  ℕ, ◌-◌, Option, none, some, List, [], ◌∷◌, Text, ◌==◌, if◌then◌else◌, saturating_add,
}
use ai_daily_report.Contract.Types.{PdfClassificationStatus}
use ai_daily_report.Contract.Profile.{NormalizedScannerSettings}
use ai_daily_report.Budget.Model.{
  RouteKind, RouteHint, ContextBudgetModel, reserved_delta, admits, backend, worker_lane,
  max_excerpt_chars,
}
use ai_daily_report.Admission.Types.{
  NotParsedReason, PlanAction, PdfClassificationPlan, ClassifiedPlan, PdfClassificationResult,
  AdmissionDecision,
}

unfoldable pub route_hint : ClassifiedPlan → RouteKind → NormalizedScannerSettings → RouteHint
route_hint plan route s = record {
  relative_path = plan.relative_path;
  extension = plan.extension;
  hint_backend = backend route;
  hint_worker_lane = worker_lane route;
  hint_max_excerpt_chars = max_excerpt_chars route s;
}

-- The two counters that the pass carries.
pub record Counters : Type 0 where
  pub running : ℕ
  pub extraction_slots : ℕ

abbrev pub Classifications : Type 0
Classifications = Text → Option PdfClassificationResult

abbrev pub status_of : Classifications → Text → Option PdfClassificationStatus
status_of classifications identity = elim (classifications identity) [
  | none ↦ none
  | some result ↦ some result.status
]

module _ (model : ContextBudgetModel) where
  unfoldable pub admit_plain : ℕ → Counters → RouteKind → PlanAction × Counters
  admit_plain delta c route =
      if admits model c.running delta
      then (PlanAction.admit route, record c { running = saturating_add c.running delta })
      else (PlanAction.not_parsed NotParsedReason.global_context_budget_exceeded, c)

  -- The `match` on the classifier's status.
  unfoldable pub admit_by_status :
      Option PdfClassificationStatus → ℕ → Counters → RouteKind → PlanAction × Counters
  unfolding admit_plain
  admit_by_status (some PdfClassificationStatus.no_text_in_parse_window) delta c route =
      admit_plain delta c route
  admit_by_status (some PdfClassificationStatus.text_in_parse_window) delta c route =
      if admits model c.running delta
      then (if c.extraction_slots == 0
          then (PlanAction.not_parsed NotParsedReason.pdf_text_extraction_quota_exhausted, c)
          else (
            PlanAction.admit route,
            record {
              running = saturating_add c.running delta;
              extraction_slots = c.extraction_slots - 1;
            },
          ))
      else (PlanAction.not_parsed NotParsedReason.global_context_budget_exceeded, c)
  admit_by_status (some PdfClassificationStatus.unknown) delta c route =
      (PlanAction.classifier_failed PdfClassificationStatus.unknown, c)
  admit_by_status (some PdfClassificationStatus.error) delta c route =
      (PlanAction.classifier_failed PdfClassificationStatus.error, c)
  admit_by_status (some PdfClassificationStatus.not_classified_by_budget) delta c route =
      (PlanAction.classifier_failed PdfClassificationStatus.unknown, c)
  admit_by_status none delta c route =
      (PlanAction.classifier_failed PdfClassificationStatus.unknown, c)

  unfoldable pub admit_pdf :
      ClassifiedPlan → RouteKind → Classifications → ℕ → Counters → PlanAction × Counters
  unfolding admit_by_status
  admit_pdf plan route classifications delta c =
      admit_by_status (status_of classifications plan.file_identity) delta c route

  -- The `match` on the classification intent of an admitted plan.
  unfoldable pub admit_route :
      PdfClassificationPlan
      → ClassifiedPlan
      → RouteKind
      → Classifications
      → ℕ
      → Counters
      → PlanAction × Counters
  unfolding admit_plain admit_pdf
  admit_route PdfClassificationPlan.not_pdf plan route classifications delta c =
      admit_plain delta c route
  admit_route (PdfClassificationPlan.classify pages) plan route classifications delta c =
      admit_pdf plan route classifications delta c
  admit_route PdfClassificationPlan.not_classified_by_budget plan route classifications delta c =
      (PlanAction.not_parsed NotParsedReason.global_context_budget_exceeded, c)

  abbrev pub reserved_if_admitted : PlanAction → ℕ → ℕ
  reserved_if_admitted (PlanAction.admit route) delta = delta
  reserved_if_admitted _ delta = 0

  module _ (s : NormalizedScannerSettings) (classifications : Classifications) where
    -- The body of the loop: the action and the reserved characters of one plan.
    unfoldable pub decide : PlanAction → ClassifiedPlan → Counters → (PlanAction × ℕ) × Counters
    unfolding admit_route route_hint reserved_delta
    decide (PlanAction.admit route) plan c =
        let delta = reserved_delta model (route_hint plan route s) in
        let (outcome, c') =
          admit_route plan.pdf_classification plan route classifications delta c in
        ((outcome, reserved_if_admitted outcome delta), c')
    decide other plan c = ((other, 0), c)

    abbrev pub decision_of : ClassifiedPlan → PlanAction × ℕ → AdmissionDecision
    decision_of plan outcome = record {
      file_identity = plan.file_identity;
      relative_path = plan.relative_path;
      extension = plan.extension;
      priority = plan.priority;
      action = outcome.0;
      reserved_chars = outcome.1;
    }

    unfoldable pub decide_all : List ClassifiedPlan → Counters → List AdmissionDecision
    unfolding decide
    decide_all [] c = []
    decide_all (plan ∷ plans) c =
        let (outcome, c') = decide plan.action plan c in
        decision_of plan outcome ∷ decide_all plans c'

    -- `ContentAdmissionPlan::build_with_remaining`
    unfoldable pub build_with_remaining : List ClassifiedPlan → ℕ → ℕ → List AdmissionDecision
    unfolding decide_all
    build_with_remaining classified retained_chars remaining_extractions =
        decide_all classified
          (record { running = retained_chars; extraction_slots = remaining_extractions })

    -- `ContentAdmissionPlan::build`
    unfoldable pub build : List ClassifiedPlan → List AdmissionDecision
    unfolding build_with_remaining
    build classified = build_with_remaining classified 0 s.max_pdf_text_extractions
