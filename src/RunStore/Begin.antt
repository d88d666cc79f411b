-- ===== src/RunStore/Begin.antt =====
-- rust/scanner_core/src/store/runs.rs: `begin_run`. The domain-separated SHA-256, the random owner
-- identity and the path of the opened database enter as arguments. A stored outcome carries the
-- metadata from which the envelope is rebuilt; the staging rows of other tables are left out.
use ai_daily_report.Prelude.{
  ℕ, ◌+◌, max, Bool, true, false, not, Option, none, some, List, [], ◌∷◌, ◌++◌, Text, codes,
  is_empty, ◌&&◌, ◌||◌, ◌==◌, count_if, text_eq, if◌then◌else◌, Result, ok, err, ensure, ◌>>=◌,
  ◌>>◌,
}
use ai_daily_report.RunStore.Types.{
  StoreError, StoreCheck, CanonicalRequest, AttemptRuntime, validate_runtime, is_sha256, RunStatus,
  is_terminal, is_running, is_abandoned, RunRow, AttemptRow, LeaseRow, ActiveRun, Tables,
}
use ai_daily_report.RunStore.Rows.{update}
use ai_daily_report.RunStore.Lease.{lease_is_live, lease_expiry, reclaim_expired_lease}

pub data BeginRunOutcome : Type 0 where
  started : ActiveRun → BeginRunOutcome
  stored : ℕ → Text → BeginRunOutcome

-- `request_id` is UNIQUE: the first row is the only one.
unfoldable pub query_existing_run : List RunRow → Text → Option RunRow
query_existing_run [] request_id = none
query_existing_run (r ∷ rows) request_id =
    let rest = query_existing_run rows request_id in
    if text_eq r.request_id request_id then some r else rest

abbrev pub runs_now : Option RunRow → Bool
runs_now none = false
runs_now (some r) = is_running r.status

-- The greatest attempt number of a run, or 0.
unfoldable pub last_attempt : ℕ → List AttemptRow → ℕ
last_attempt id [] = 0
last_attempt id (a ∷ rows) =
    let rest = last_attempt id rows in
    if a.scan_run_id == id then max a.attempt_number rest else rest

module _ (domain_hash : Text → Text) where
  unfoldable pub ensure_request_hash : RunRow → CanonicalRequest → StoreCheck
  ensure_request_hash existing canonical = do
    ensure (text_eq (domain_hash existing.canonical_request_json) existing.request_hash)
        (StoreError.run_corrupt (codes "stored logical request hash is invalid"))
    ensure
        (text_eq existing.request_hash canonical.hash
          && text_eq existing.canonical_request_json canonical.json)
        StoreError.request_id_conflict

  -- `load_stored_envelope_ref`, up to the metadata.
  unfoldable pub load_stored : RunRow → Result StoreError BeginRunOutcome
  load_stored existing = do
    ensure (text_eq (domain_hash existing.canonical_request_json) existing.request_hash)
        (StoreError.run_corrupt (codes "stored logical request hash is invalid"))
    ensure (is_terminal existing.status)
        (StoreError.run_corrupt (codes "nonterminal run has no reusable envelope"))
    elim existing.final_envelope_metadata_json [
      | none ↦ err (StoreError.run_corrupt (codes "terminal run has no envelope metadata"))
      | some metadata ↦ ok (BeginRunOutcome.stored existing.scan_run_id metadata)
    ]

  -- What an existing row of the request returns at once, if anything.
  unfoldable pub replay :
      Option RunRow → CanonicalRequest → Result StoreError (Option BeginRunOutcome)
  unfolding ensure_request_hash load_stored
  replay none canonical = ok none
  replay (some r) canonical = ensure_request_hash r canonical >> elim (is_terminal r.status) [
    | true ↦ (load_stored r >>= (λ outcome. ok (some outcome)))
    | false ↦ ok none
  ]

  -- The checks of the arguments, before the database is read.
  unfoldable pub check_begin : Text → Text → CanonicalRequest → AttemptRuntime → StoreCheck
  unfolding validate_runtime is_sha256
  check_begin store_path request_id canonical runtime =
      ensure
        (text_eq canonical.hash_algorithm (codes "sha256-request-v1")
          && text_eq canonical.request_id request_id
          && is_sha256 canonical.hash
          && not (is_empty canonical.json)
          && text_eq (domain_hash canonical.json) canonical.hash)
        (StoreError.invalid_request (codes "canonical request fingerprint is invalid"))
      >> ensure (text_eq store_path runtime.normalized_scan_db_path) (
          StoreError.invalid_request
            (codes "attempt scan database path does not match the opened store"))

-- A live lease refuses, an expired one is reclaimed, and a running row needs one.
unfoldable pub clear_lease : Option LeaseRow → Option RunRow → Tables → ℕ → Result StoreError Tables
unfolding lease_is_live reclaim_expired_lease
clear_lease (some l) existing t now_ms =
    if lease_is_live l now_ms
    then err (
        if runs_now existing
        then StoreError.request_in_progress
        else StoreError.scan_already_running)
    else reclaim_expired_lease t l now_ms
clear_lease none existing t now_ms =
    ensure (not (runs_now existing))
      (StoreError.run_corrupt (codes "running row has no engine lease"))
    >> ok t

unfoldable pub new_lease : Text → ℕ → ℕ → LeaseRow
new_lease owner now_ms expires = record {
  owner_id = owner;
  acquired_at_ms = now_ms;
  heartbeat_at_ms = now_ms;
  expires_at_ms = expires;
}

abbrev pub restart : Text → ℕ → RunRow → RunRow
restart owner now_ms r = record r {
  owner_id = owner;
  status = RunStatus.running;
  started_at_ms = now_ms;
  updated_at_ms = now_ms;
  finished_at_ms = none;
}

abbrev pub new_run : ℕ → CanonicalRequest → Text → ℕ → RunRow
new_run id canonical owner now_ms = record {
  scan_run_id = id;
  request_id = canonical.request_id;
  canonical_request_json = canonical.json;
  request_hash = canonical.hash;
  owner_id = owner;
  status = RunStatus.running;
  created_at_ms = now_ms;
  started_at_ms = now_ms;
  updated_at_ms = now_ms;
  finished_at_ms = none;
  final_envelope_metadata_json = none;
  audit_size_bytes = none;
}

abbrev pub is_abandoned_run : ℕ → RunRow → Bool
is_abandoned_run id r = r.scan_run_id == id && is_abandoned r.status

-- The row of the run: an abandoned one is reactivated, and a new request is inserted. A row that
-- was running when the lease expired is abandoned by now.
unfoldable pub start_row :
    Option RunRow → CanonicalRequest → Text → ℕ → Tables → Result StoreError (ℕ × Tables)
start_row (some existing) canonical owner now_ms t = do
  ensure (is_abandoned existing.status || is_running existing.status)
      (StoreError.run_corrupt (codes "nonterminal run cannot be restarted"))
  ensure (count_if (is_abandoned_run existing.scan_run_id) t.runs == 1)
      (StoreError.run_corrupt (codes "abandoned run could not be reactivated"))
  ok (
    existing.scan_run_id,
    record t {
      runs = update (is_abandoned_run existing.scan_run_id) (restart owner now_ms) t.runs;
    },
  )
start_row none canonical owner now_ms t = ok (
  t.next_run_id,
  record t {
    runs = t.runs ++ new_run t.next_run_id canonical owner now_ms ∷ [];
    next_run_id = t.next_run_id + 1;
  },
)

unfoldable pub new_attempt : Tables → ℕ → Text → AttemptRuntime → ℕ → AttemptRow
unfolding last_attempt
new_attempt t id owner runtime now_ms = record {
  scan_run_id = id;
  attempt_number = last_attempt id t.attempts + 1;
  owner_id = owner;
  runtime = runtime;
  office_worker = none;
  pdf_worker = none;
  started_at_ms = now_ms;
  finished_at_ms = none;
  status = RunStatus.running;
}

-- The lease, the row and the attempt of a run that starts.
unfoldable pub start_run :
    Option RunRow
    → CanonicalRequest
    → AttemptRuntime
    → Text
    → ℕ
    → Tables
    → Result StoreError (BeginRunOutcome × Tables)
unfolding new_lease start_row new_attempt lease_expiry
start_run existing canonical runtime owner now_ms t = do
  expires ← lease_expiry now_ms
  (id, rows) ← start_row existing canonical owner now_ms t
  let attempt = new_attempt rows id owner runtime now_ms
  ok (
    BeginRunOutcome.started (record {
      scan_run_id = id;
      attempt_number = attempt.attempt_number;
      owner_id = owner;
      request_id = canonical.request_id;
    }),
    record rows {
      lease = some (new_lease owner now_ms expires);
      attempts = rows.attempts ++ attempt ∷ [];
    },
  )
