-- ===== src/RunStore/Types.antt =====
-- rust/scanner_core/src/store/types.rs: store errors, requests, fingerprints and the rows of the
-- tables `scan_runs`, `scan_run_attempts` and `engine_lease`.
use ai_daily_report.Prelude.{
  ℕ, Bool, true, false, not, Option, List, ◌++◌, Text, codes, length, leb, ltb, is_empty, ◌&&◌,
  ◌||◌, ◌==◌, all, Result, ok, err, ensure,
}
use ai_daily_report.Contract.Types.{ErrorCode}
use ai_daily_report.Contract.Checks.{is_absolute_path}

pub data StoreError : Type 0 where
  invalid_request : Text → StoreError
  cache_open : Text → StoreError
  cache_write : Text → StoreError
  scan_already_running : StoreError
  request_in_progress : StoreError
  request_id_conflict : StoreError
  run_corrupt : Text → StoreError
  run_not_found : StoreError
  lease_lost : StoreError
  schema_mismatch : StoreError
  schema_layout_mismatch : StoreError
  artifact_mismatch : Text → StoreError
  absolute_deadline_exhausted : StoreError
  work_deadline_exhausted : StoreError
  busy_timeout_restore : Text → StoreError

unfoldable pub store_error_code : StoreError → ErrorCode
store_error_code (StoreError.invalid_request m) = ErrorCode.invalid_request
store_error_code (StoreError.cache_open d) = ErrorCode.cache_open_failed
store_error_code (StoreError.cache_write d) = ErrorCode.cache_write_failed
store_error_code (StoreError.busy_timeout_restore d) = ErrorCode.cache_write_failed
store_error_code StoreError.lease_lost = ErrorCode.cache_write_failed
store_error_code StoreError.scan_already_running = ErrorCode.scan_already_running
store_error_code StoreError.request_in_progress = ErrorCode.request_in_progress
store_error_code StoreError.request_id_conflict = ErrorCode.request_id_conflict
store_error_code (StoreError.run_corrupt m) = ErrorCode.run_corrupt
store_error_code StoreError.run_not_found = ErrorCode.run_not_found
store_error_code StoreError.schema_mismatch = ErrorCode.scanner_db_schema_mismatch
store_error_code StoreError.schema_layout_mismatch = ErrorCode.scanner_db_schema_mismatch
store_error_code (StoreError.artifact_mismatch m) = ErrorCode.budget_model_mismatch
store_error_code StoreError.absolute_deadline_exhausted = ErrorCode.stage_deadline_exhausted
store_error_code StoreError.work_deadline_exhausted = ErrorCode.stage_deadline_exhausted

unfoldable pub retryable : StoreError → Bool
retryable (StoreError.cache_open d) = true
retryable (StoreError.cache_write d) = true
retryable (StoreError.busy_timeout_restore d) = true
retryable StoreError.scan_already_running = true
retryable StoreError.request_in_progress = true
retryable StoreError.lease_lost = true
retryable StoreError.absolute_deadline_exhausted = true
retryable StoreError.work_deadline_exhausted = true
retryable _ = false

abbrev pub StoreCheck : Type 0
StoreCheck = Result StoreError (Unit {0})

abbrev pub i64_max : ℕ
i64_max = 9223372036854775807

-- `checked_i64` of a `u64`.
unfoldable pub checked_i64 : ℕ → Text → Result StoreError ℕ
checked_i64 value field = elim (leb value i64_max) [
  | true ↦ ok value
  | false ↦ err (StoreError.invalid_request (field ++ codes " exceeds SQLite integer range"))
]

pub record CanonicalRequest : Type 0 where
  pub request_id : Text
  pub json : Text
  pub hash_algorithm : Text
  pub hash : Text

pub record AttemptRuntime : Type 0 where
  pub normalized_scan_db_path : Text
  pub normalized_office_worker_path : Text
  pub normalized_pdf_worker_path : Text
  pub engine_fingerprint : Text

-- `AttemptRuntime::validate`; the test of a path is that of the contract.
unfoldable pub validate_runtime : AttemptRuntime → StoreCheck
unfolding is_absolute_path
validate_runtime r =
    ensure
      (not (
        is_empty r.normalized_scan_db_path
        || not (is_absolute_path r.normalized_scan_db_path)
        || is_empty r.normalized_office_worker_path
        || not (is_absolute_path r.normalized_office_worker_path)
        || is_empty r.normalized_pdf_worker_path
        || not (is_absolute_path r.normalized_pdf_worker_path)
        || is_empty r.engine_fingerprint
        || ltb 4096 (length r.engine_fingerprint)))
      (StoreError.invalid_request (codes "attempt runtime fingerprint is incomplete"))

pub record WorkerFingerprint : Type 0 where
  pub contract : Text
  pub version : Text
  pub build : Text

unfoldable pub validate_fingerprint : WorkerFingerprint → StoreCheck
validate_fingerprint f =
    ensure
      (not (
        is_empty f.contract
        || ltb 1024 (length f.contract)
        || is_empty f.version
        || ltb 1024 (length f.version)
        || is_empty f.build
        || ltb 4096 (length f.build)))
      (StoreError.invalid_request (codes "worker fingerprint is incomplete"))

-- `is_sha256`: sixty-four hexadecimal digits in lower case.
unfoldable pub is_sha256 : Text → Bool
is_sha256 value =
    length value == 64 && all (λ c. (leb b'0' c && leb c b'9') || (leb b'a' c && leb c b'f')) value

-- The status of a run and of an attempt.
pub data RunStatus : Type 0 where
  running success partial error abandoned : RunStatus

unfoldable pub is_terminal : RunStatus → Bool
is_terminal RunStatus.success = true
is_terminal RunStatus.partial = true
is_terminal RunStatus.error = true
is_terminal _ = false

abbrev pub is_running : RunStatus → Bool
is_running RunStatus.running = true
is_running _ = false

abbrev pub is_abandoned : RunStatus → Bool
is_abandoned RunStatus.abandoned = true
is_abandoned _ = false

-- A row of `scan_runs`.
pub record RunRow : Type 0 where
  pub scan_run_id : ℕ
  pub request_id : Text
  pub canonical_request_json : Text
  pub request_hash : Text
  pub owner_id : Text
  pub status : RunStatus
  pub created_at_ms : ℕ
  pub started_at_ms : ℕ
  pub updated_at_ms : ℕ
  pub finished_at_ms : Option ℕ
  pub final_envelope_metadata_json : Option Text
  pub audit_size_bytes : Option ℕ

-- A row of `scan_run_attempts`; the worker columns are set and read together.
pub record AttemptRow : Type 0 where
  pub scan_run_id : ℕ
  pub attempt_number : ℕ
  pub owner_id : Text
  pub runtime : AttemptRuntime
  pub office_worker : Option WorkerFingerprint
  pub pdf_worker : Option WorkerFingerprint
  pub started_at_ms : ℕ
  pub finished_at_ms : Option ℕ
  pub status : RunStatus

-- The row of `engine_lease`.
pub record LeaseRow : Type 0 where
  pub owner_id : Text
  pub acquired_at_ms : ℕ
  pub heartbeat_at_ms : ℕ
  pub expires_at_ms : ℕ

pub record ActiveRun : Type 0 where
  pub scan_run_id : ℕ
  pub attempt_number : ℕ
  pub owner_id : Text
  pub request_id : Text

-- The tables, and the next key of `scan_runs`, which is AUTOINCREMENT.
pub record Tables : Type 0 where
  pub runs : List RunRow
  pub attempts : List AttemptRow
  pub lease : Option LeaseRow
  pub next_run_id : ℕ
