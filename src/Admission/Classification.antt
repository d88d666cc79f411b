-- ===== src/Admission/Classification.antt =====
-- rust/scanner_core/src/admission.rs: stage A, `ClassificationPlan`.
use mathlib.Core.List.{filter_map}
use ai_daily_report.Prelude.{
  ℕ, ◌-◌, min, Bool, true, false, Option, none, some, List, [], ◌∷◌, ◌++◌, Text, ltb, ◌==◌, ◌||◌,
  if◌then◌else◌,
}
use ai_daily_report.Prelude.Sorting.{sort_by_key}
use ai_daily_report.Nominal.{NominalKey, nominal_key, key_cmp}
use ai_daily_report.Contract.Types.{SourceGuardKind}
use ai_daily_report.Contract.Profile.{NormalizedScannerSettings}
use ai_daily_report.Budget.Model.{RouteKind}
use ai_daily_report.Admission.Types.{
  NotParsedReason, RejectReason, PlanAction, PlanCandidate, PdfClassificationPlan, ClassifiedPlan,
}
use ai_daily_report.Admission.Routing.{RouteDecision, classify_candidate_v2}

abbrev pub is_unavailable : SourceGuardKind → Bool
is_unavailable SourceGuardKind.unavailable = true
is_unavailable _ = false

abbrev pub is_pdf : RouteKind → Bool
is_pdf RouteKind.pdf = true
is_pdf _ = false

-- What the first pass does with a file: settle it, or make it a candidate with a route.
pub data Triage : Type 0 where
  settled : PlanAction → Triage
  candidate : RouteKind → Triage

unfoldable pub triage : NormalizedScannerSettings → PlanCandidate → Triage
unfolding classify_candidate_v2
triage s file = elim (classify_candidate_v2 file s) [
  | RouteDecision.policy_not_parsed reason ↦ settled (PlanAction.not_parsed reason)
  | RouteDecision.invariant_reject reason ↦ settled (PlanAction.reject reason)
  | RouteDecision.route route ↦
      if is_unavailable file.source_guard_kind
      then settled (PlanAction.reject RejectReason.source_guard_unavailable)
      else candidate route
]

module _ (to_lowercase : Text → Text) where
  abbrev pub file_key : PlanCandidate → NominalKey
  file_key file = nominal_key to_lowercase file.relative_path file.extension file.file_identity

  abbrev pub candidate_key : PlanCandidate × RouteKind → NominalKey
  candidate_key c = file_key c.0

  abbrev pub plan_key : ClassifiedPlan → NominalKey
  plan_key plan = nominal_key to_lowercase plan.relative_path plan.extension plan.file_identity

  -- The plan of a file: its names and its priority, with an action.
  abbrev pub plan_of : PlanCandidate → PlanAction → PdfClassificationPlan → ClassifiedPlan
  plan_of file action pdf_classification = record {
    file_identity = file.file_identity;
    relative_path = file.relative_path;
    extension = file.extension;
    priority = (file_key file).priority;
    action = action;
    pdf_classification = pdf_classification;
  }

  module _ (s : NormalizedScannerSettings) where
    -- The first pass: what it pushes to `classified` and to `candidates`.
    unfoldable pub settle : PlanCandidate → Option ClassifiedPlan
    unfolding triage
    settle file = elim (triage s file) [
      | settled action ↦ some (plan_of file action PdfClassificationPlan.not_pdf)
      | candidate route ↦ none
    ]

    unfoldable pub offer : PlanCandidate → Option (PlanCandidate × RouteKind)
    unfolding triage
    offer file = elim (triage s file) [
      | settled action ↦ none
      | candidate route ↦ some (file, route)
    ]

    -- The pages that a PDF candidate is charged.
    abbrev pub page_charge : Bool → ℕ → ℕ
    page_charge allow_partial_pages page_remaining =
        if allow_partial_pages
        then min s.parse.pdf.max_pages page_remaining
        else s.parse.pdf.max_pages

    -- The second pass: slots and pages in nominal order.
    unfoldable pub assign : Bool → ℕ → ℕ → List (PlanCandidate × RouteKind) → List ClassifiedPlan
    assign allow slots pages [] = []
    assign allow slots pages ((file, route) ∷ rest) =
        let charge = page_charge allow pages in
        let no_slot = assign allow slots pages rest in
        let plain = assign allow (slots - 1) pages rest in
        let charged = assign allow (slots - 1) (pages - charge) rest in
        if slots == 0
        then plan_of file (PlanAction.not_parsed NotParsedReason.semantic_file_quota_exhausted)
            PdfClassificationPlan.not_pdf
          ∷ no_slot
        else if is_pdf route
        then (if charge == 0 || ltb pages charge
            then plan_of file
                (PlanAction.not_parsed NotParsedReason.pdf_classification_page_quota_exhausted)
                PdfClassificationPlan.not_classified_by_budget
              ∷ no_slot
            else plan_of file (PlanAction.admit route) (PdfClassificationPlan.classify charge)
              ∷ charged)
        else plan_of file (PlanAction.admit route) PdfClassificationPlan.not_pdf ∷ plain

    -- `ClassificationPlan::build_with_remaining`
    unfoldable pub build_with_remaining : List PlanCandidate → ℕ → ℕ → Bool → List ClassifiedPlan
    unfolding settle offer filter_map assign sort_by_key
    build_with_remaining files page_budget candidate_budget allow_partial_pages =
        sort_by_key key_cmp plan_key (
          filter_map settle files
          ++ assign allow_partial_pages candidate_budget page_budget
              (sort_by_key key_cmp candidate_key (filter_map offer files)))

    -- `ClassificationPlan::build`
    unfoldable pub build : List PlanCandidate → ℕ → List ClassifiedPlan
    unfolding build_with_remaining
    build files page_budget = build_with_remaining files page_budget s.max_candidate_files false
