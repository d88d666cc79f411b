-- ===== src/RunStore/Steps.antt =====
-- The store under any interleaving of its clients: each step is one operation that succeeds, of any
-- handle, at any time; an operation that fails changes nothing and is no step.
use ai_daily_report.Prelude.{ℕ, ◌≡◌, Option, none, [], Text, ok}
use ai_daily_report.RunStore.Types.{
  ActiveRun, Tables, CanonicalRequest, AttemptRuntime, WorkerFingerprint,
}
use ai_daily_report.RunStore.Begin.{BeginRunOutcome}
use ai_daily_report.RunStore.Operations.{
  begin_run, record_worker_fingerprints, heartbeat, abandon_active_run, Terminal, finalize,
}
use ai_daily_report.RunStore.Consistent.{IsConsistent}
use ai_daily_report.RunStore.Finished.{
  heartbeat-IsConsistent, record_worker_fingerprints-IsConsistent, abandon_active_run-IsConsistent,
  finalize-IsConsistent,
}
use ai_daily_report.RunStore.Begun.{begin_run-IsConsistent}

-- A new database.
abbrev pub empty_tables : Tables
empty_tables = record { runs = []; attempts = []; lease = none; next_run_id = 1 }

module _ (domain_hash : Text → Text) where
  pub data Step (t : Tables) (u : Tables) : Type 0 where
    begins :
        (store_path request_id : Text) (canonical : CanonicalRequest) (runtime : AttemptRuntime)
        (owner : Text) (now : ℕ) (before : Tables) (outcome : BeginRunOutcome)
        → begin_run domain_hash store_path request_id canonical runtime owner now before t
          ≡ ok (outcome, u)
        → Step t u
    records :
        (a : ActiveRun) (office pdf : Option WorkerFingerprint) (now : ℕ)
        → record_worker_fingerprints a office pdf now t ≡ ok u
        → Step t u
    beats : (a : ActiveRun) (now : ℕ) → heartbeat a now t ≡ ok u → Step t u
    abandons : (a : ActiveRun) (now : ℕ) → abandon_active_run a now t ≡ ok u → Step t u
    finalizes :
        (a : ActiveRun) (batch : Terminal) (now remaining : ℕ)
        → finalize a batch now remaining t ≡ ok u
        → Step t u

  -- The states that are reached from a new database.
  pub data Reach : Tables → Type 0 where
    start : Reach empty_tables
    later : {t u : Tables} → Reach t → Step t u → Reach u

  Step-IsConsistent : {t u : Tables} → Step t u → IsConsistent t → IsConsistent u
  Step-IsConsistent {t} {u} (begins path id canonical runtime owner now before outcome h) c =
      begin_run-IsConsistent domain_hash path id canonical runtime owner now before t outcome u h c
  Step-IsConsistent {t} {u} (records a office pdf now h) c =
      record_worker_fingerprints-IsConsistent a office pdf now t u h c
  Step-IsConsistent {t} {u} (beats a now h) c = heartbeat-IsConsistent a now t u h c
  Step-IsConsistent {t} {u} (abandons a now h) c = abandon_active_run-IsConsistent a now t u h c
  Step-IsConsistent {t} {u} (finalizes a batch now remaining h) c =
      finalize-IsConsistent a batch now remaining t u h c

  pub Reach-IsConsistent : {t : Tables} → Reach t → IsConsistent t
  Reach-IsConsistent start = (tt, tt)
  Reach-IsConsistent (later r s) = Step-IsConsistent s (Reach-IsConsistent r)
