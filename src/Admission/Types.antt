-- ===== src/Admission/Types.antt =====
-- rust/scanner_core/src/admission.rs: reasons, actions, candidates and plans.
use ai_daily_report.Prelude.{ℕ, Option, Text, codes}
use ai_daily_report.Contract.Types.{SourceGuardKind, PdfClassificationStatus}
use ai_daily_report.Budget.Model.{RouteKind}

pub data NotParsedReason : Type 0 where
  semantic_file_quota_exhausted pdf_classification_page_quota_exhausted : NotParsedReason
  pdf_text_extraction_quota_exhausted global_context_budget_exceeded : NotParsedReason
  file_size_policy legacy_extension_disabled : NotParsedReason

unfoldable pub not_parsed_text : NotParsedReason → Text
not_parsed_text NotParsedReason.semantic_file_quota_exhausted =
    codes "semantic_file_quota_exhausted"
not_parsed_text NotParsedReason.pdf_classification_page_quota_exhausted =
    codes "pdf_classification_page_quota_exhausted"
not_parsed_text NotParsedReason.pdf_text_extraction_quota_exhausted =
    codes "pdf_text_extraction_quota_exhausted"
not_parsed_text NotParsedReason.global_context_budget_exceeded =
    codes "global_context_budget_exceeded"
not_parsed_text NotParsedReason.file_size_policy = codes "file_size_policy"
not_parsed_text NotParsedReason.legacy_extension_disabled = codes "legacy_extension_disabled"

pub data RejectReason : Type 0 where
  profile_route_invariant source_guard_unavailable : RejectReason

unfoldable pub reject_text : RejectReason → Text
reject_text RejectReason.profile_route_invariant = codes "profile_route_invariant"
reject_text RejectReason.source_guard_unavailable = codes "source_guard_unavailable"

pub data PlanAction : Type 0 where
  admit : RouteKind → PlanAction
  not_parsed : NotParsedReason → PlanAction
  reject : RejectReason → PlanAction
  classifier_failed : PdfClassificationStatus → PlanAction

pub record PlanCandidate : Type 0 where
  pub file_identity : Text
  pub relative_path : Text
  pub extension : Text
  pub size_bytes : ℕ
  pub source_guard_kind : SourceGuardKind

pub data PdfClassificationPlan : Type 0 where
  not_pdf : PdfClassificationPlan
  classify : ℕ → PdfClassificationPlan
  not_classified_by_budget : PdfClassificationPlan

pub record ClassifiedPlan : Type 0 where
  pub file_identity : Text
  pub relative_path : Text
  pub extension : Text
  pub priority : ℕ
  pub action : PlanAction
  pub pdf_classification : PdfClassificationPlan

pub record PdfClassificationResult : Type 0 where
  pub file_identity : Text
  pub status : PdfClassificationStatus
  pub page_count : Option ℕ
  pub result_examined_pages : Option ℕ
  pub error_code : Option Text

pub record AdmissionDecision : Type 0 where
  pub file_identity : Text
  pub relative_path : Text
  pub extension : Text
  pub priority : ℕ
  pub action : PlanAction
  pub reserved_chars : ℕ
