-- ===== src/Contract/Types.antt =====
-- rust/scanner_contract/src/lib.rs: statuses, actions, diagnostics and decisions.
use ai_daily_report.Prelude.{
  ℕ, Bool, Option, none, some, Text, codes, length, leb, ok, ensure, ◌>>◌,
}
use ai_daily_report.Contract.Checks.{
  Check, require_non_empty, require_absolute_path, require_relative_path,
}

pub data ReportMode : Type 0 where
  daily weekly monthly : ReportMode

pub data ParseStatus : Type 0 where
  success error timeout not_parsed : ParseStatus

pub data ContextAction : Type 0 where
  keep compress metadata_only omit error : ContextAction

pub data AuditWorkerLane : Type 0 where
  rust_core rust_office_process_v3 rust_pdf_process_v3 local_ocr_preflight not_parsed :
      AuditWorkerLane

pub data CacheStatus : Type 0 where
  fresh miss : CacheStatus

pub data SourceGuardKind : Type 0 where
  windows_file_id_change_time_v1 unix_inode_ctime_v1 content_sha256_v1 unavailable : SourceGuardKind

pub data PdfClassificationStatus : Type 0 where
  text_in_parse_window no_text_in_parse_window not_classified_by_budget unknown error :
      PdfClassificationStatus

pub data ErrorCode : Type 0 where
  invalid_request contract_version_mismatch work_dir_not_found work_dir_not_directory : ErrorCode
  discovery_entry_unreadable file_too_large parser_start_failed parser_timeout : ErrorCode
  parser_invalid_payload parser_failed pdf_protected worker_handshake_failed : ErrorCode
  worker_version_mismatch worker_build_changed source_version_changed : ErrorCode
  cache_open_failed cache_write_failed scan_already_running request_in_progress : ErrorCode
  request_id_conflict run_not_found run_corrupt context_budget_invalid not_implemented : ErrorCode
  rust_core_crashed stage_deadline_exhausted budget_model_mismatch : ErrorCode
  context_fixed_sections_over_budget profile_route_invariant source_file_limit_exceeded : ErrorCode
  source_guard_unavailable scanner_db_schema_mismatch diagnostics_aggregated : ErrorCode
  snapshot_reuse_projected_as_fresh parse_cache_not_applicable_projected_as_miss : ErrorCode
  cache_miss_reason_projected_as_new_file source_guard_not_projected : ErrorCode
  worker_rss_unavailable internal_error : ErrorCode

pub data DiagnosticStage : Type 0 where
  request discovery cache parse context process doctor internal : DiagnosticStage

pub record Diagnostic : Type 0 where
  pub error_code : ErrorCode
  pub message : Text
  pub retryable : Bool
  pub stage : DiagnosticStage
  pub file_path : Option Text
  pub backend : Option Text

abbrev check_some : (Text → Check) → Option Text → Check
check_some check none = ok tt
check_some check (some t) = check t

unfoldable pub validate_diagnostic : Diagnostic → Check
unfolding require_non_empty require_absolute_path
validate_diagnostic d = do
  require_non_empty d.message 4096 (codes "diagnostic.message")
  check_some (λ p. require_absolute_path p (codes "diagnostic.file_path")) d.file_path
  check_some (λ b. require_non_empty b 1024 (codes "diagnostic.backend")) d.backend

pub record ContextDecision : Type 0 where
  pub relative_path : Text
  pub action : ContextAction
  pub reason : Text
  pub priority : ℕ
  pub input_chars : ℕ
  pub output_chars : ℕ
  pub truncated : Bool
  pub error_code : Text

unfoldable pub validate_decision : ContextDecision → Check
unfolding require_relative_path require_non_empty
validate_decision d = do
  require_relative_path d.relative_path (codes "decision relative_path")
  require_non_empty d.reason 4096 (codes "decision reason")
  ensure (leb (length d.error_code) 1024) (codes "decision error_code is too long")
