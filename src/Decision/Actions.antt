-- ===== src/Decision/Actions.antt =====
-- rust/scanner_core/src/decision.rs: `decide_files`. The profile is a `ContextProfile`, as in the
-- one implementation of the trait.
use ai_daily_report.Prelude.{
  ℕ, not, Option, none, some, List, [], ◌∷◌, Text, codes, length, leb, ltb, ◌&&◌, text_eq, contains,
  if◌then◌else◌, Result, ok, err, ◌>>=◌, ◌>>◌,
}
use ai_daily_report.Prelude.Sorting.{sort_by_key}
use ai_daily_report.Nominal.{NominalKey, nominal_key, key_cmp, office_or_pdf_extensions}
use ai_daily_report.Contract.Types.{ParseStatus, ContextAction, ContextDecision, Diagnostic}
use ai_daily_report.Contract.Profile.{ContextProfile}
use ai_daily_report.Audit.Types.{ParsedContentAudit}
use ai_daily_report.Audit.Validate.{is_some_and}
use ai_daily_report.Decision.Evidence.{ContextFileEvidence, validate_evidence}
use ai_daily_report.Decision.ErrorText.{error_code_text}

pub record DecidedFile : Type 0 where
  pub evidence : ContextFileEvidence
  pub decision : ContextDecision

unfoldable pub compression_reason : Text → Text
compression_reason extension =
    if text_eq extension (codes ".log")
    then codes "large_log_tail"
    else if contains office_or_pdf_extensions extension
    then codes "large_document_summary"
    else codes "medium_text_compress"

abbrev pub text_or : Option Text → Text → Text
text_or none t = t
text_or (some s) t = s

abbrev pub number_or : Option ℕ → ℕ → ℕ
number_or none n = n
number_or (some m) n = m

-- The action and the reason of a successful parse.
unfoldable pub success_action : ContextFileEvidence → ContextProfile → ContextAction × Text
unfolding compression_reason
success_action e profile =
    if text_eq e.parser_backend (codes "pdf_metadata_v2")
      && is_some_and e.reason (λ r. text_eq r (codes "pdf_no_text_in_parse_window"))
    then (ContextAction.metadata_only, codes "pdf_no_text_in_parse_window")
    else if ltb profile.large_file_max_bytes (number_or e.size_bytes 0)
    then (ContextAction.metadata_only, codes "file_size_policy")
    else if leb (length e.content) profile.per_file_max_chars && not e.truncated
    then (ContextAction.keep, codes "small_file_keep")
    else (ContextAction.compress, compression_reason e.extension)

-- The `match` on the parse status. The `expect` of the source is the last error: evidence that
-- passed validation never meets it.
unfoldable pub status_action :
    ParseStatus → ContextFileEvidence → ContextProfile → Result Text (ContextAction × Text)
unfolding success_action
status_action ParseStatus.error e profile =
    ok (ContextAction.error, text_or e.reason (codes "parse_error"))
status_action ParseStatus.timeout e profile =
    ok (ContextAction.error, text_or e.reason (codes "parse_error"))
status_action ParseStatus.success e profile = ok (success_action e profile)
status_action ParseStatus.not_parsed e profile = elim e.reason [
  | some reason ↦ ok (ContextAction.omit, reason)
  | none ↦ err (codes "not-parsed evidence must carry a budget reason")
]

unfoldable pub input_chars_of : ContextAction → ContextFileEvidence → ℕ
input_chars_of ContextAction.keep e = length e.content
input_chars_of ContextAction.compress e = length e.content
input_chars_of _ e = number_or e.size_bytes 0

abbrev pub code_or_empty : Option Diagnostic → Text
code_or_empty none = []
code_or_empty (some error) = error_code_text error.error_code

unfoldable pub error_code_of : ParseStatus → Option Diagnostic → Text
unfolding error_code_text
error_code_of ParseStatus.error error = code_or_empty error
error_code_of ParseStatus.timeout error = code_or_empty error
error_code_of _ error = []

module _ (to_lowercase : Text → Text) (encoded_len : ParsedContentAudit → ℕ) where
  abbrev pub evidence_key : ContextFileEvidence → NominalKey
  evidence_key e = nominal_key to_lowercase e.relative_path e.extension e.file_identity

  abbrev pub decided_key : DecidedFile → NominalKey
  decided_key d = evidence_key d.evidence

  abbrev pub decided_of : ContextFileEvidence → ContextAction × Text → DecidedFile
  decided_of e outcome = record {
    evidence = e;
    decision = record {
      relative_path = e.relative_path;
      action = outcome.0;
      reason = outcome.1;
      priority = (evidence_key e).priority;
      input_chars = input_chars_of outcome.0 e;
      output_chars = 0;
      truncated = e.truncated;
      error_code = error_code_of e.parse_status e.error;
    };
  }

  -- The body of the loop.
  unfoldable pub decide_file : ContextProfile → ContextFileEvidence → Result Text DecidedFile
  decide_file profile e = do
    validate_evidence encoded_len e
    outcome ← status_action e.parse_status e profile
    ok (decided_of e outcome)

  unfoldable pub decide_each :
      ContextProfile → List ContextFileEvidence → Result Text (List DecidedFile)
  decide_each profile [] = ok []
  decide_each profile (e ∷ es) = do
    decided ← decide_file profile e
    rest ← decide_each profile es
    ok (decided ∷ rest)

  unfoldable pub decide_files :
      List ContextFileEvidence → ContextProfile → Result Text (List DecidedFile)
  unfolding decide_each
  decide_files evidence profile = do
    decided ← decide_each profile evidence
    ok (sort_by_key key_cmp decided_key decided)
