-- ===== src/RunStore/Operations.antt =====
-- rust/scanner_core/src/store/runs.rs: the operations of the store on runs, attempts and the lease,
-- each one transaction. Of `finalize` this is the terminal transaction's work on these tables: the
-- validation of the batch and the rows of other tables are left out, and the batch enters by its
-- status, its metadata, its audit size, whether its records need worker fingerprints, whether a stored engine
-- fingerprint is that of its envelope, and the runs that the retention plan deletes and protects.
use ai_daily_report.Prelude.{
  ℕ, Bool, true, false, not, Option, none, some, List, [], ◌∷◌, Text, codes, length, any, sum_by,
  leb, ltb, ◌&&◌, ◌||◌, ◌==◌, count_if, if◌then◌else◌, Result, ok, err, ensure, ◌>>=◌, ◌>>◌,
}
use ai_daily_report.RunStore.Types.{
  StoreError, StoreCheck, checked_i64, CanonicalRequest, AttemptRuntime, WorkerFingerprint,
  validate_runtime, validate_fingerprint, RunStatus, is_terminal, is_running, RunRow, AttemptRow,
  ActiveRun, Tables,
}
use ai_daily_report.RunStore.Rows.{update, delete}
use ai_daily_report.RunStore.Lease.{
  heartbeat_in_transaction, ensure_owner, is_active_run, is_active_attempt, abandon_run,
  abandon_attempt, delete_lease,
}
use ai_daily_report.RunStore.Begin.{
  BeginRunOutcome, query_existing_run, replay, check_begin, clear_lease, start_run,
}

module _ (domain_hash : Text → Text) where
  -- The transaction of `begin_run`.
  unfoldable pub begin_transaction :
      CanonicalRequest
      → AttemptRuntime
      → Text
      → ℕ
      → Tables
      → Result StoreError (BeginRunOutcome × Tables)
  begin_transaction canonical runtime owner now_ms t = do
    let existing = query_existing_run t.runs canonical.request_id
    early ← replay domain_hash existing canonical
    elim early [
      | some outcome ↦ ok (outcome, t)
      | none ↦
          (clear_lease t.lease existing t now_ms
            >>= (λ cleared. start_run existing canonical runtime owner now_ms cleared))
    ]

  -- `begin_run`: the first look is at the tables as they were before the transaction began.
  unfoldable pub begin_run :
      Text
      → Text
      → CanonicalRequest
      → AttemptRuntime
      → Text
      → ℕ
      → Tables
      → Tables
      → Result StoreError (BeginRunOutcome × Tables)
  unfolding begin_transaction
  begin_run store_path request_id canonical runtime owner now before t = do
    validate_runtime runtime
    now_ms ← checked_i64 now (codes "run timestamp")
    check_begin domain_hash store_path request_id canonical runtime
    early ← replay domain_hash (query_existing_run before.runs request_id) canonical
    elim early [
      | some outcome ↦ ok (outcome, t)
      | none ↦ begin_transaction canonical runtime owner now_ms t
    ]

abbrev pub check_worker : Option WorkerFingerprint → StoreCheck
check_worker none = ok tt
check_worker (some f) = validate_fingerprint f

unfoldable pub record_worker_fingerprints :
    ActiveRun
    → Option WorkerFingerprint
    → Option WorkerFingerprint
    → ℕ
    → Tables
    → Result StoreError Tables
record_worker_fingerprints a office pdf now t = do
  check_worker office
  check_worker pdf
  now_ms ← checked_i64 now (codes "worker fingerprint timestamp")
  ensure_owner t a
  ensure (count_if (is_active_attempt a) t.attempts == 1) StoreError.lease_lost
  heartbeat_in_transaction
      (record t {
        attempts =
            update (is_active_attempt a)
              (λ r. record r { office_worker = office; pdf_worker = pdf }) t.attempts;
      })
      a now_ms

unfoldable pub heartbeat : ActiveRun → ℕ → Tables → Result StoreError Tables
heartbeat a now t = do
  now_ms ← checked_i64 now (codes "heartbeat timestamp")
  heartbeat_in_transaction t a now_ms

-- The updates of the run and of its attempt must each hit one row.
unfoldable pub close_rows :
    ActiveRun → (RunRow → RunRow) → (AttemptRow → AttemptRow) → Tables → Result StoreError Tables
close_rows a set_run set_attempt t = do
  ensure (count_if (is_active_run a) t.runs == 1 && count_if (is_active_attempt a) t.attempts == 1)
      StoreError.lease_lost
  ok (record t {
    runs = update (is_active_run a) set_run t.runs;
    attempts = update (is_active_attempt a) set_attempt t.attempts;
  })

unfoldable pub abandon_active_run : ActiveRun → ℕ → Tables → Result StoreError Tables
abandon_active_run a now t = do
  now_ms ← checked_i64 now (codes "abandon timestamp")
  ensure_owner t a
  closed ← close_rows a (abandon_run now_ms) (abandon_attempt now_ms) t
  delete_lease a.owner_id closed

abbrev pub terminal_run_max_count : ℕ
terminal_run_max_count = 500

abbrev pub terminal_audit_max_bytes : ℕ
terminal_audit_max_bytes = 2147483648

pub record Terminal : Type 0 where
  pub status : RunStatus
  pub metadata_json : Text
  pub audit_size : ℕ
  -- Inventory or results are there, or no handshake failed.
  pub workers_used : Bool
  pub same_engine : Text → Option Bool
  pub victims : List ℕ
  pub protected_runs : List ℕ

-- `ensure_worker_fingerprints`
unfoldable pub ensure_worker_fingerprints : ActiveRun → List AttemptRow → StoreCheck
ensure_worker_fingerprints a [] = err StoreError.lease_lost
ensure_worker_fingerprints a (r ∷ rows) =
    let rest = ensure_worker_fingerprints a rows in
    if is_active_attempt a r
    then elim r.office_worker [
      | none ↦
          err (
            StoreError.run_corrupt (codes "terminal attempt is missing required worker handshakes"))
      | some office ↦ elim r.pdf_worker [
        | none ↦ err (
            StoreError.run_corrupt (codes "terminal attempt is missing required worker handshakes"))
        | some pdf ↦ ok tt
      ]
    ]
    else rest

-- `ensure_engine_fingerprint`: the stored text may not parse.
unfoldable pub ensure_engine_fingerprint :
    (Text → Option Bool) → ActiveRun → List AttemptRow → StoreCheck
ensure_engine_fingerprint same_engine a [] = err StoreError.lease_lost
ensure_engine_fingerprint same_engine a (r ∷ rows) =
    let rest = ensure_engine_fingerprint same_engine a rows in
    if is_active_attempt a r
    then elim (same_engine r.runtime.engine_fingerprint) [
      | none ↦ err (StoreError.run_corrupt (codes "attempt engine fingerprint is invalid"))
      | some same ↦
          ensure same
            (StoreError.run_corrupt (codes "final envelope engine identity changed during the run"))
    ]
    else rest

-- Success or partial.
abbrev pub is_success : RunStatus → Bool
is_success RunStatus.success = true
is_success RunStatus.partial = true
is_success _ = false

abbrev pub finish_run : Terminal → ℕ → RunRow → RunRow
finish_run batch now_ms r = record r {
  status = batch.status;
  updated_at_ms = now_ms;
  finished_at_ms = some now_ms;
  final_envelope_metadata_json = some batch.metadata_json;
  audit_size_bytes = some batch.audit_size;
}

abbrev pub finish_attempt : Terminal → ℕ → AttemptRow → AttemptRow
finish_attempt batch now_ms a = record a { status = batch.status; finished_at_ms = some now_ms }

-- The rows that `delete_prepared_terminal_runs` may delete.
abbrev pub is_victim : Terminal → RunRow → Bool
is_victim batch r =
    any (λ id. r.scan_run_id == id) batch.victims
    && not (is_running r.status)
    && not (any (λ id. r.scan_run_id == id) batch.protected_runs)

-- Deleting a run deletes its attempts.
abbrev pub delete_runs : Terminal → Tables → Tables
delete_runs batch t = record t {
  runs = delete (is_victim batch) t.runs;
  attempts =
      delete (λ a. any (λ r. is_victim batch r && r.scan_run_id == a.scan_run_id) t.runs)
        t.attempts;
}

abbrev audit_bytes : RunRow → ℕ
audit_bytes r = elim r.audit_size_bytes [ none ↦ 0 | some n ↦ if is_running r.status then 0 else n ]

-- `apply_terminal_retention_plan`: the victims are as planned, and the hard caps hold.
unfoldable pub retain : Terminal → Tables → Result StoreError Tables
retain batch t = do
  ensure (count_if (is_victim batch) t.runs == length batch.victims) (
      StoreError.run_corrupt
        (codes "prepared terminal retention victims changed before terminal apply"))
  let kept = delete_runs batch t
  ensure
      (leb (count_if (λ r. not (is_running r.status)) kept.runs) terminal_run_max_count
        && leb (sum_by audit_bytes kept.runs) terminal_audit_max_bytes)
      (StoreError.run_corrupt
        (codes "prepared terminal retention plan no longer satisfies the hard caps"))
  ok kept

-- The current run is always protected.
abbrev pub protect : ActiveRun → Terminal → Terminal
protect a batch = record batch { protected_runs = a.scan_run_id ∷ batch.protected_runs }

-- The terminal transaction. The clock is monotonic, so its last reading before the commit decides
-- the checks of the deadline.
unfoldable pub finalize : ActiveRun → Terminal → ℕ → ℕ → Tables → Result StoreError Tables
finalize a batch now remaining_ms t = do
  now_ms ← checked_i64 now (codes "finalization timestamp")
  ensure (is_terminal batch.status)
      (StoreError.invalid_request (codes "final status must be success, partial, or error"))
  beaten ← heartbeat_in_transaction t a now_ms
  ensure_engine_fingerprint batch.same_engine a beaten.attempts
  if is_success batch.status || batch.workers_used
      then ensure_worker_fingerprints a beaten.attempts
      else ok tt
  closed ← close_rows a (finish_run batch now_ms) (finish_attempt batch now_ms) beaten
  retained ← retain (protect a batch) closed
  released ← delete_lease a.owner_id retained
  ensure (ltb 0 remaining_ms) StoreError.absolute_deadline_exhausted
  ok released
