-- ===== src/Examples/Storing.antt =====
-- A request that begins, is finalized and is answered from the store, and a stale handle.
use ai_daily_report.Prelude.{
  ◌≡◌, ◌⊎◌, refl, true, false, none, some, [], ◌∷◌, ◌++◌, Text, codes, ok, err, arith,
  if◌then◌else◌, text_eq,
}
use ai_daily_report.Contract.Checks.{is_absolute_path}
use ai_daily_report.RunStore.Types.{
  StoreError, retryable, checked_i64, CanonicalRequest, AttemptRuntime, WorkerFingerprint,
  validate_runtime, validate_fingerprint, is_sha256, is_terminal, RunStatus, RunRow, AttemptRow,
  ActiveRun, Tables,
}
use ai_daily_report.RunStore.Lease.{
  lease_is_live, lease_expiry, ensure_owner, beat, heartbeat_in_transaction,
}
use ai_daily_report.RunStore.Begin.{
  BeginRunOutcome, query_existing_run, last_attempt, replay, check_begin, clear_lease, new_lease,
  start_row, new_run, new_attempt, start_run, runs_now,
}
use ai_daily_report.RunStore.Operations.{
  begin_transaction, begin_run, record_worker_fingerprints, Terminal, finish_run, finish_attempt,
}
use ai_daily_report.RunStore.Steps.{empty_tables, begins, Reach, start, later}
use ai_daily_report.RunStore.Owned.{ensure_owner_unique}
use ai_daily_report.RunStore.Progress.{lease_in_force}
use ai_daily_report.RunStore.Starts.{begin_transaction_lem}

abbrev digest : Text
digest = codes "0123456789abcdef0123456789abcdef0123456789abcdef0123456789abcdef"

-- A hash of one value, which only tests that the stored one is compared.
abbrev domain_hash : Text → Text
domain_hash json = digest

abbrev store_path : Text
store_path = codes "/data/scan.db"

abbrev runtime : AttemptRuntime
runtime = record {
  normalized_scan_db_path = store_path;
  normalized_office_worker_path = codes "/opt/office";
  normalized_pdf_worker_path = codes "/opt/pdf";
  engine_fingerprint = codes "engine 1";
}

abbrev request : Text → CanonicalRequest
request id = record {
  request_id = id;
  json = codes "{}";
  hash_algorithm = codes "sha256-request-v1";
  hash = digest;
}

abbrev first_request : CanonicalRequest
first_request = request (codes "r1")

abbrev second_request : CanonicalRequest
second_request = request (codes "r2")

abbrev active : ActiveRun
active = record {
  scan_run_id = 1;
  attempt_number = 1;
  owner_id = codes "alpha";
  request_id = codes "r1";
}

abbrev first_attempt : AttemptRow
first_attempt = record {
  scan_run_id = 1;
  attempt_number = 1;
  owner_id = codes "alpha";
  runtime = runtime;
  office_worker = none;
  pdf_worker = none;
  started_at_ms = 1000;
  finished_at_ms = none;
  status = RunStatus.running;
}

abbrev running_tables : Tables
running_tables = record {
  runs = new_run 1 first_request (codes "alpha") 1000 ∷ [];
  attempts = first_attempt ∷ [];
  lease = some (record {
    owner_id = codes "alpha";
    acquired_at_ms = 1000;
    heartbeat_at_ms = 1000;
    expires_at_ms = 21000;
  });
  next_run_id = 2;
}

begin_first :
    begin_run domain_hash store_path
      (codes "r1")
      first_request
      runtime
      (codes "alpha")
      1000
      empty_tables
      empty_tables
    ≡ ok (BeginRunOutcome.started active, running_tables)
unfolding begin_run begin_transaction checked_i64 validate_runtime is_absolute_path check_begin
    is_sha256 replay query_existing_run clear_lease start_run lease_expiry start_row new_attempt
    last_attempt new_lease
begin_first = refl

Reach-running : Reach domain_hash running_tables
Reach-running = later start (
    begins store_path (codes "r1") first_request runtime (codes "alpha") 1000 empty_tables
      (BeginRunOutcome.started active) begin_first)

-- The check of ownership does not read the attempt.
abbrev other_attempt : ActiveRun
other_attempt = record active { attempt_number = 2 }

owns : ensure_owner running_tables active ≡ ok tt
unfolding ensure_owner
owns = refl

other_owns : ensure_owner running_tables other_attempt ≡ ok tt
unfolding ensure_owner
other_owns = refl

ensure_owner_unique_example :
    (active.scan_run_id ≡ other_attempt.scan_run_id) × (active.owner_id ≡ other_attempt.owner_id)
ensure_owner_unique_example =
    ensure_owner_unique domain_hash running_tables active other_attempt Reach-running owns
      other_owns

abbrev stale : ActiveRun
stale = record active { owner_id = codes "omega" }

abbrev batch : Terminal
batch = record {
  status = RunStatus.partial;
  metadata_json = codes "{\"context\":1}";
  audit_size = 12;
  workers_used = true;
  same_engine = λ engine. some (text_eq engine (codes "engine 1"));
  victims = [];
  protected_runs = [];
}

-- A lease that is over: the request that ran starts again.
nothing_stored :
    replay domain_hash
      (query_existing_run running_tables.runs first_request.request_id)
      first_request
    ≡ ok none
unfolding replay query_existing_run is_terminal
nothing_stored = refl

begin_transaction_lem_example :
    ((lease_in_force running_tables.lease 50000 ≡ false)
      × (a : ActiveRun) × (u : Tables) × (begin_transaction domain_hash first_request runtime
            (codes "beta")
            50000
            running_tables
          ≡ ok (BeginRunOutcome.started a, u))
      × (a.owner_id ≡ codes "beta")
      × (a.request_id ≡ first_request.request_id)
      × (ensure_owner u a ≡ ok tt))
    ⊎ ((lease_in_force running_tables.lease 50000 ≡ true)
        × (e : StoreError) × (begin_transaction domain_hash first_request runtime
              (codes "beta")
              50000
              running_tables
            ≡ err e)
        × (e ≡ (
            if runs_now (query_existing_run running_tables.runs first_request.request_id)
            then StoreError.request_in_progress
            else StoreError.scan_already_running))
        × (retryable e ≡ true))
begin_transaction_lem_example =
    begin_transaction_lem domain_hash first_request runtime (codes "beta") 50000 running_tables
      Reach-running nothing_stored (omega arith)

abbrev worker : WorkerFingerprint
worker = record { contract = codes "worker 1"; version = codes "1.0"; build = codes "b1" }

abbrev equipped_attempt : AttemptRow
equipped_attempt = record first_attempt { office_worker = some worker; pdf_worker = some worker }

abbrev equipped_run : RunRow
equipped_run = record (new_run 1 first_request (codes "alpha") 1000) { updated_at_ms = 1500 }

abbrev equipped_tables : Tables
equipped_tables = record running_tables {
  runs = equipped_run ∷ [];
  attempts = equipped_attempt ∷ [];
  lease = some (record {
    owner_id = codes "alpha";
    acquired_at_ms = 1000;
    heartbeat_at_ms = 1500;
    expires_at_ms = 21500;
  });
}

recorded :
    record_worker_fingerprints active (some worker) (some worker) 1500 running_tables
    ≡ ok equipped_tables
unfolding record_worker_fingerprints checked_i64 validate_fingerprint heartbeat_in_transaction
    ensure_owner lease_expiry beat lease_is_live
recorded = refl

abbrev finished_tables : Tables
finished_tables = record equipped_tables {
  runs = finish_run batch 3000 equipped_run ∷ [];
  attempts = finish_attempt batch 3000 equipped_attempt ∷ [];
  lease = none;
}

-- Another request begins after the first one is final.
abbrev second_tables : Tables
second_tables = record finished_tables {
  runs = finished_tables.runs ++ new_run 2 second_request (codes "beta") 9000 ∷ [];
  attempts =
      finished_tables.attempts
      ++ record first_attempt { scan_run_id = 2; owner_id = codes "beta"; started_at_ms = 9000 }
        ∷ [];
  lease = some (record {
    owner_id = codes "beta";
    acquired_at_ms = 9000;
    heartbeat_at_ms = 9000;
    expires_at_ms = 29000;
  });
  next_run_id = 3;
}

abbrev second_active : ActiveRun
second_active = record {
  scan_run_id = 2;
  attempt_number = 1;
  owner_id = codes "beta";
  request_id = codes "r2";
}
