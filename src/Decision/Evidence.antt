-- ===== src/Decision/Evidence.antt =====
-- rust/scanner_core/src/decision.rs: `ContextFileEvidence` and its validation.
use ai_daily_report.Prelude.{
  ℕ, Bool, true, not, Option, none, some, [], Text, codes, length, ltb, is_empty, ◌||◌, text_eq, ok,
  ensure, ◌>>◌,
}
use ai_daily_report.Contract.Types.{
  ParseStatus, AuditWorkerLane, CacheStatus, ContextAction, Diagnostic, validate_diagnostic,
  validate_decision,
}
use ai_daily_report.Contract.Checks.{Check, is_absolute_path, is_extension}
use ai_daily_report.Audit.Types.{ParsedContentAudit}
use ai_daily_report.Audit.Validate.{validate_audit, is_some_and}

pub record ContextFileEvidence : Type 0 where
  pub file_identity : Text
  pub absolute_path : Text
  pub relative_path : Text
  pub extension : Text
  pub size_bytes : Option ℕ
  pub content : Text
  pub evidence_audit : Option ParsedContentAudit
  pub parser_backend : Text
  pub worker_lane : AuditWorkerLane
  pub cache_status : CacheStatus
  pub parse_status : ParseStatus
  pub truncated : Bool
  pub error : Option Diagnostic
  pub reason : Option Text

abbrev pub is_some {ℓ} : {A : Type ℓ} → Option A → Bool
is_some o = is_some_and o (λ _. true)

-- The `match` on the parse status, with its guards.
unfoldable pub check_status : ParseStatus → Option Diagnostic → Option Text → Check
check_status ParseStatus.success error reason =
    ensure (not (is_some error)) (codes "successful context evidence cannot carry an error")
check_status ParseStatus.error error reason =
    ensure (is_some error) (codes "failed context evidence requires a diagnostic")
check_status ParseStatus.timeout error reason =
    ensure (is_some error) (codes "failed context evidence requires a diagnostic")
check_status ParseStatus.not_parsed error reason = do
  ensure (not (is_some error)) (codes "not-parsed evidence cannot carry a per-file diagnostic")
  ensure (is_some reason) (codes "not-parsed evidence requires a budget reason")

abbrev check_option {ℓ} : {A : Type ℓ} → Option A → (A → Check) → Check
check_option none check = ok tt
check_option (some a) check = check a

-- `ContextFileEvidence::validate`. The absolute path and the extension are checked as in the
-- contract, by the same tests.
unfoldable pub validate_evidence : (ParsedContentAudit → ℕ) → ContextFileEvidence → Check
validate_evidence encoded_len e = do
  check_option e.evidence_audit (λ audit. validate_audit encoded_len audit e.content)
  validate_decision (record {
    relative_path = e.relative_path;
    action = ContextAction.keep;
    reason = codes "validation_probe";
    priority = 0;
    input_chars = length e.content;
    output_chars = 0;
    truncated = e.truncated;
    error_code = [];
  })
  ensure
      (not (
        is_empty e.file_identity
        || ltb 4096 (length e.file_identity)
        || not (is_absolute_path e.absolute_path)
        || not (is_extension e.extension)
        || is_empty e.parser_backend
        || ltb 1024 (length e.parser_backend)))
      (codes "context file evidence is invalid")
  check_status e.parse_status e.error e.reason
  check_option e.error (λ error.
      validate_diagnostic error
      >> ensure (is_some_and error.file_path (λ path. text_eq path e.absolute_path))
          (codes "context diagnostic path does not match its evidence"))
