-- ===== src/RunStore/Lease.antt =====
-- rust/scanner_core/src/store/lease.rs: the engine lease. A transaction that fails is rolled back: a
-- function returns the tables after it only as a success. The numbers of milliseconds are not
-- negative, so `heartbeat > now - grace` is written without the subtraction.
use ai_daily_report.Prelude.{
  ℕ, ◌+◌, Bool, false, not, Option, none, some, Text, codes, leb, ltb, ◌&&◌, ◌||◌, ◌==◌, any,
  text_eq, if◌then◌else◌, Result, ok, err, ensure, ◌>>=◌, ◌>>◌,
}
use ai_daily_report.RunStore.Types.{
  StoreError, StoreCheck, i64_max, RunStatus, is_running, RunRow, AttemptRow, LeaseRow, ActiveRun,
  Tables,
}
use ai_daily_report.RunStore.Rows.{update}

abbrev pub lease_grace_ms : ℕ
lease_grace_ms = 20000

unfoldable pub lease_is_live : LeaseRow → ℕ → Bool
lease_is_live l now_ms =
    ltb now_ms l.expires_at_ms || ltb now_ms (l.heartbeat_at_ms + lease_grace_ms)

unfoldable pub lease_expiry : ℕ → Result StoreError ℕ
lease_expiry now_ms =
    if leb (now_ms + lease_grace_ms) i64_max
    then ok (now_ms + lease_grace_ms)
    else err (StoreError.invalid_request (codes "lease timestamp overflows"))

-- The running rows of an owner.
abbrev pub run_of_owner : Text → RunRow → Bool
run_of_owner owner r = text_eq r.owner_id owner && is_running r.status

abbrev pub attempt_of_owner : Text → AttemptRow → Bool
attempt_of_owner owner a = text_eq a.owner_id owner && is_running a.status

abbrev pub abandon_run : ℕ → RunRow → RunRow
abandon_run now_ms r = record r {
  status = RunStatus.abandoned;
  updated_at_ms = now_ms;
  finished_at_ms = some now_ms;
}

abbrev pub abandon_attempt : ℕ → AttemptRow → AttemptRow
abandon_attempt now_ms a = record a { status = RunStatus.abandoned; finished_at_ms = some now_ms }

abbrev pub holds : Option LeaseRow → Text → Bool
holds none owner = false
holds (some l) owner = text_eq l.owner_id owner

-- `DELETE FROM engine_lease WHERE lease_key=1 AND owner_id=?1`, which must delete one row.
unfoldable pub delete_lease : Text → Tables → Result StoreError Tables
delete_lease owner t =
    if holds t.lease owner then ok (record t { lease = none }) else err StoreError.lease_lost

unfoldable pub reclaim_expired_lease : Tables → LeaseRow → ℕ → Result StoreError Tables
reclaim_expired_lease t l now_ms = do
  ensure (not (lease_is_live l now_ms)) StoreError.scan_already_running
  delete_lease l.owner_id (record t {
    runs = update (run_of_owner l.owner_id) (abandon_run now_ms) t.runs;
    attempts = update (attempt_of_owner l.owner_id) (abandon_attempt now_ms) t.attempts;
  })

-- The run of an active handle, while it runs under the handle's owner.
abbrev pub is_active_run : ActiveRun → RunRow → Bool
is_active_run a r =
    r.scan_run_id == a.scan_run_id && text_eq r.owner_id a.owner_id && is_running r.status

abbrev pub is_active_attempt : ActiveRun → AttemptRow → Bool
is_active_attempt a r =
    r.scan_run_id == a.scan_run_id
    && r.attempt_number == a.attempt_number
    && text_eq r.owner_id a.owner_id
    && is_running r.status

unfoldable pub ensure_owner : Tables → ActiveRun → StoreCheck
ensure_owner t a =
    ensure (any (is_active_run a) t.runs && holds t.lease a.owner_id) StoreError.lease_lost

-- The UPDATE of the lease: no row of the owner that is live loses the lease, and the table's CHECK
-- refuses a heartbeat before the acquisition.
unfoldable pub beat : Option LeaseRow → Text → ℕ → ℕ → Result StoreError LeaseRow
beat none owner now_ms expires = err StoreError.lease_lost
beat (some l) owner now_ms expires = do
  ensure (text_eq l.owner_id owner && lease_is_live l now_ms) StoreError.lease_lost
  ensure (leb l.acquired_at_ms now_ms)
      (StoreError.cache_write (codes "CHECK constraint failed: engine_lease"))
  ok (record l { heartbeat_at_ms = now_ms; expires_at_ms = expires })

unfoldable pub heartbeat_in_transaction : Tables → ActiveRun → ℕ → Result StoreError Tables
heartbeat_in_transaction t a now_ms = do
  ensure_owner t a
  expires ← lease_expiry now_ms
  l ← beat t.lease a.owner_id now_ms expires
  ok (record t {
    lease = some l;
    runs = update (is_active_run a) (λ r. record r { updated_at_ms = now_ms }) t.runs;
  })
