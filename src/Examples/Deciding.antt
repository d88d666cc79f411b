-- ===== src/Examples/Deciding.antt =====
-- Decisions on two pieces of evidence.
use mathlib.Core.List.{Permᴰ, Pairwise-pair}
use mathlib.Core.HLevel.{¬_prop}
use ai_daily_report.Prelude.{
  ℕ, ◌≡◌, ◌≢◌, ◌↔◌, refl, false, none, some, [], ◌∷◌, map, codes, ok, err, arith,
}
use ai_daily_report.Prelude.Order.{text_cmp}
use ai_daily_report.Prelude.Sorting.{sort_by_key, HasDistinctKeys, IsSorted}
use ai_daily_report.Nominal.{nominal_key, key_cmp}
use ai_daily_report.Nominal.Order.{nominal_key-injective}
use ai_daily_report.Contract.Types.{
  validate_decision, validate_diagnostic, ParseStatus, AuditWorkerLane, CacheStatus, ContextAction,
  ErrorCode, DiagnosticStage,
}
use ai_daily_report.Audit.Types.{ParsedContentAudit}
use ai_daily_report.Contract.Checks.{is_absolute_path, is_extension}
use ai_daily_report.Decision.Evidence.{check_status, ContextFileEvidence, validate_evidence}
use ai_daily_report.Decision.Actions.{
  status_action, DecidedFile, decide_file, decide_files, decided_of, evidence_key, decided_key,
}
use ai_daily_report.Decision.Matrix.{decide_file_err}
use ai_daily_report.Decision.Sorted.{decide_files_complete, decide_files-canonical}
use ai_daily_report.Examples.Samples.{ascii_lower, daily_context}

abbrev lengths : ParsedContentAudit → ℕ
lengths a = 400

abbrev pub note : ContextFileEvidence
note = record {
  file_identity = codes "id-1";
  absolute_path = codes "/d/notes.md";
  relative_path = codes "notes.md";
  extension = codes ".md";
  size_bytes = some 5;
  content = codes "hello";
  evidence_audit = none;
  parser_backend = codes "light_text_v2";
  worker_lane = AuditWorkerLane.rust_core;
  cache_status = CacheStatus.miss;
  parse_status = ParseStatus.success;
  truncated = false;
  error = none;
  reason = none;
}

abbrev failed : ContextFileEvidence
failed = record {
  file_identity = codes "id-2";
  absolute_path = codes "/d/report.pdf";
  relative_path = codes "report.pdf";
  extension = codes ".pdf";
  size_bytes = some 5;
  content = [];
  evidence_audit = none;
  parser_backend = codes "rust_pdfium_v3";
  worker_lane = AuditWorkerLane.rust_pdf_process_v3;
  cache_status = CacheStatus.miss;
  parse_status = ParseStatus.timeout;
  truncated = false;
  error = some (record {
    error_code = ErrorCode.parser_timeout;
    message = codes "slow";
    retryable = false;
    stage = DiagnosticStage.parse;
    file_path = some (codes "/d/report.pdf");
    backend = none;
  });
  reason = none;
}

abbrev unnamed : ContextFileEvidence
unnamed = record note { file_identity = [] }

abbrev pub decided_note : DecidedFile
decided_note = decided_of ascii_lower lengths note (ContextAction.keep, codes "small_file_keep")

abbrev decided_failed : DecidedFile
decided_failed = decided_of ascii_lower lengths failed (ContextAction.error, codes "parse_error")

decide_file_err_example :
    (decide_file ascii_lower lengths daily_context unnamed
      ≡ err (codes "context file evidence is invalid"))
    ↔ (validate_evidence lengths unnamed ≡ err (codes "context file evidence is invalid"))
decide_file_err_example =
    decide_file_err ascii_lower lengths daily_context unnamed
      (codes "context file evidence is invalid")

unnamed_err : validate_evidence lengths unnamed ≡ err (codes "context file evidence is invalid")
unfolding validate_evidence validate_decision
unnamed_err = refl

-- The PDF goes first: its priority is 20, and that of the note 30.
decided_both :
    decide_files ascii_lower lengths (note ∷ failed ∷ []) daily_context
    ≡ ok (decided_failed ∷ decided_note ∷ [])
unfolding decide_files decide_file validate_evidence nominal_key key_cmp text_cmp validate_decision
    is_absolute_path is_extension check_status status_action validate_diagnostic sort_by_key
decided_both = refl

decide_files_complete_example :
    Permᴰ (map (λ d. d.evidence) (decided_failed ∷ decided_note ∷ [])) (note ∷ failed ∷ [])
    × IsSorted key_cmp (decided_key ascii_lower lengths) (decided_failed ∷ decided_note ∷ [])
decide_files_complete_example =
    decide_files_complete ascii_lower lengths daily_context (note ∷ failed ∷ [])
      (decided_failed ∷ decided_note ∷ []) decided_both

paths_differ : codes "notes.md" ≢ codes "report.pdf"
paths_differ e = ground arith

evidence_keys_differ :
    HasDistinctKeys key_cmp (evidence_key ascii_lower lengths) (note ∷ failed ∷ [])
evidence_keys_differ = (Pairwise-pair (λ _ _. ¬_prop)).1 (λ e.
    paths_differ
      (nominal_key-injective ascii_lower (codes "notes.md") (codes "report.pdf") (codes ".md")
        (codes ".pdf") (codes "id-1") (codes "id-2") e).0)

decide_files-canonical_example :
    decide_files ascii_lower lengths (failed ∷ note ∷ []) daily_context
    ≡ ok (decided_failed ∷ decided_note ∷ [])
decide_files-canonical_example =
    decide_files-canonical ascii_lower lengths daily_context {es = note ∷ failed ∷ []}
      {es' = failed ∷ note ∷ []} (decided_failed ∷ decided_note ∷ []) (Permᴰ.swap refl refl)
      evidence_keys_differ decided_both
