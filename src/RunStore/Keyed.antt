-- ===== src/RunStore/Keyed.antt =====
-- Every step of the store keeps the keys of `scan_runs` distinct and below the next one.
use mathlib.Core.Path.{subst}
use ai_daily_report.Prelude.{
  ℕ, ◌+◌, ◌≡◌, ◌<◌, inl, inr, refl, sym, ap, ◌∙◌, arith, Option, none, some, [], ◌∷◌, ◌++◌, Text,
  ok,
}
use ai_daily_report.RunStore.Types.{
  RunRow, LeaseRow, ActiveRun, Tables, CanonicalRequest, AttemptRuntime,
}
use ai_daily_report.RunStore.Rows.{update}
use ai_daily_report.RunStore.Lease.{
  run_of_owner, attempt_of_owner, abandon_run, abandon_attempt, delete_lease, reclaim_expired_lease,
  is_active_run, heartbeat_in_transaction,
}
use ai_daily_report.RunStore.Begin.{
  BeginRunOutcome, clear_lease, start_row, restart, new_run, is_abandoned_run, query_existing_run,
}
use ai_daily_report.RunStore.Operations.{
  begin_run, abandon_active_run, Terminal, finalize, finish_run, is_victim, protect, delete_runs,
}
use ai_daily_report.RunStore.Kept.{heartbeat_in_transaction_inv, close_rows_inv, delete_lease_inv}
use ai_daily_report.RunStore.Finished.{
  record_worker_fingerprints_inv, heartbeat_inv, abandon_active_run_inv, finalize_inv, retain_inv,
}
use ai_daily_report.RunStore.Begun.{begin_transaction_cases, begin_run_cases, start_run_row}
use ai_daily_report.RunStore.Steps.{
  Step, begins, records, beats, abandons, finalizes, Reach, start, later,
}
use ai_daily_report.RunStore.Keys.{
  keys, IsKeyed, keys-update, keys-delete-All, keys-delete-Distinct, keys-append, Distinct-append,
  below_suc,
}

-- The same keys and the same next one.
IsSameKeys : Tables → Tables → Type 0
IsSameKeys t u = (keys u.runs ≡ keys t.runs) × (u.next_run_id ≡ t.next_run_id)

same-IsKeyed : (t u : Tables) → IsSameKeys t u → IsKeyed t → IsKeyed u
unfolding IsSameKeys
same-IsKeyed t u s h = rw (s.0, s.1) h

heartbeat_same :
    (t : Tables) (a : ActiveRun) (now : ℕ) (u : Tables)
    → heartbeat_in_transaction t a now ≡ ok u
    → IsSameKeys t u
unfolding IsSameKeys
heartbeat_same t a now u h =
    let b = heartbeat_in_transaction_inv t a now u h in
    (
      ap keys b.rows
          ∙ keys-update (is_active_run a) (λ r. record r { updated_at_ms = now }) t.runs
              (λ r. refl),
      b.next,
    )

clear_lease_same :
    (o : Option LeaseRow) (existing : Option RunRow) (t : Tables) (now : ℕ) (u : Tables)
    → clear_lease o existing t now ≡ ok u
    → IsSameKeys t u
unfolding IsSameKeys clear_lease reclaim_expired_lease delete_lease
clear_lease_same none existing t now u h =
    let e : u ≡ t = ground arith in (ap (λ x. keys x.runs) e, ap (λ x. x.next_run_id) e)
clear_lease_same (some l) existing t now u h =
    let e : u ≡ record t {
      lease = none;
      runs = update (run_of_owner l.owner_id) (abandon_run now) t.runs;
      attempts = update (attempt_of_owner l.owner_id) (abandon_attempt now) t.attempts;
    } =
      ground arith in
    (
      ap (λ x. keys x.runs) e
          ∙ keys-update (run_of_owner l.owner_id) (abandon_run now) t.runs (λ r. refl),
      ap (λ x. x.next_run_id) e,
    )

start_row-IsKeyed :
    (o : Option RunRow) (canonical : CanonicalRequest) (owner : Text) (now : ℕ) (t : Tables)
    (id : ℕ) (u : Tables)
    → start_row o canonical owner now t ≡ ok (id, u)
    → IsKeyed t
    → IsKeyed u
unfolding start_row
start_row-IsKeyed none canonical owner now t id u h k =
    let e : u ≡ record t {
      runs = t.runs ++ new_run t.next_run_id canonical owner now ∷ [];
      next_run_id = t.next_run_id + 1;
    } =
      ground arith in
    rw (e, keys-append t.runs (new_run t.next_run_id canonical owner now))
      (
        below_suc t.next_run_id (keys t.runs) k.0,
        Distinct-append t.next_run_id (keys t.runs) k.0 k.1,
      )
start_row-IsKeyed (some r) canonical owner now t id u h k =
    let e : u
        ≡ record t { runs = update (is_abandoned_run r.scan_run_id) (restart owner now) t.runs } =
      ground arith in
    rw (e, keys-update (is_abandoned_run r.scan_run_id) (restart owner now) t.runs (λ x. refl)) k

abandon_same :
    (a : ActiveRun) (now : ℕ) (t u : Tables) → abandon_active_run a now t ≡ ok u → IsSameKeys t u
unfolding IsSameKeys
abandon_same a now t u h =
    let (closed, k, d) = abandon_active_run_inv a now t u h in
    let (_, _, e) = close_rows_inv a (abandon_run now) (abandon_attempt now) t closed k in
    let (_, f) = delete_lease_inv a.owner_id closed u d in
    (
      ap (λ x. keys x.runs) f
          ∙ ap (λ x. keys x.runs) e
          ∙ keys-update (is_active_run a) (abandon_run now) t.runs (λ r. refl),
      ap (λ x. x.next_run_id) f ∙ ap (λ x. x.next_run_id) e,
    )

delete_runs-IsKeyed : (batch : Terminal) (t : Tables) → IsKeyed t → IsKeyed (delete_runs batch t)
delete_runs-IsKeyed batch t k = (
  keys-delete-All (λ n. n < t.next_run_id) (is_victim batch) t.runs k.0,
  keys-delete-Distinct (is_victim batch) t.runs k.1,
)

finalize-IsKeyed :
    (a : ActiveRun) (batch : Terminal) (now remaining : ℕ) (t u : Tables)
    → finalize a batch now remaining t ≡ ok u
    → IsKeyed t
    → IsKeyed u
unfolding IsSameKeys
finalize-IsKeyed a batch now remaining t u h k =
    let (beaten, closed, retained, b, c, r, d, _, _) = finalize_inv a batch now remaining t u h in
    let (_, _, e) = close_rows_inv a (finish_run batch now) _ beaten closed c in
    let same : IsSameKeys beaten closed = (
      ap (λ x. keys x.runs) e
          ∙ keys-update (is_active_run a) (finish_run batch now) beaten.runs (λ r. refl),
      ap (λ x. x.next_run_id) e,
    ) in
    let at_close =
      same-IsKeyed beaten closed same (same-IsKeyed t beaten (heartbeat_same t a now beaten b) k) in
    let at_retain : IsKeyed retained =
      rw (retain_inv (protect a batch) closed retained r)
        (delete_runs-IsKeyed (protect a batch) closed at_close) in
    rw (delete_lease_inv a.owner_id retained u d).1 at_retain

module _ (domain_hash : Text → Text) where
  begin_run-IsKeyed :
      (store_path request_id : Text) (canonical : CanonicalRequest) (runtime : AttemptRuntime)
      (owner : Text) (now : ℕ) (before t : Tables) (outcome : BeginRunOutcome) (u : Tables)
      → begin_run domain_hash store_path request_id canonical runtime owner now before t
        ≡ ok (outcome, u)
      → IsKeyed t
      → IsKeyed u
  unfolding IsSameKeys
  begin_run-IsKeyed store_path request_id canonical runtime owner now before t outcome u h k =
      elim (begin_run_cases domain_hash store_path request_id canonical runtime owner now before t
        outcome u h) [
          | inl e ↦ subst IsKeyed (sym e) k
          | inr b ↦
              elim (begin_transaction_cases domain_hash canonical runtime owner now t outcome u b) [
                | inl e ↦ subst IsKeyed (sym e) k
                | inr (cleared, c, s) ↦
                    let existing = query_existing_run t.runs canonical.request_id in
                    let (id, rows, w, runs, next) =
                      start_run_row existing canonical runtime owner now cleared outcome u s in
                    let kept =
                      same-IsKeyed t cleared (clear_lease_same t.lease existing t now cleared c)
                        k in
                    same-IsKeyed rows u (ap keys runs, next)
                      (start_row-IsKeyed existing canonical owner now cleared id rows w kept)
              ]
        ]

  Step-IsKeyed : {t u : Tables} → Step domain_hash t u → IsKeyed t → IsKeyed u
  unfolding IsSameKeys
  Step-IsKeyed {t} {u} (begins path id canonical runtime owner now before outcome h) k =
      begin_run-IsKeyed path id canonical runtime owner now before t outcome u h k
  Step-IsKeyed {t} {u} (records a office pdf now h) k =
      same-IsKeyed t u
        (heartbeat_same (record t { attempts = _ }) a now u
          (record_worker_fingerprints_inv a office pdf now t u h))
        k
  Step-IsKeyed {t} {u} (beats a now h) k =
      same-IsKeyed t u (heartbeat_same t a now u (heartbeat_inv a now t u h)) k
  Step-IsKeyed {t} {u} (abandons a now h) k = same-IsKeyed t u (abandon_same a now t u h) k
  Step-IsKeyed {t} {u} (finalizes a batch now remaining h) k =
      finalize-IsKeyed a batch now remaining t u h k

  -- In a state that is reached, the keys of the runs are distinct and below the next one.
  pub Reach-IsKeyed : {t : Tables} → Reach domain_hash t → IsKeyed t
  Reach-IsKeyed start = (tt, tt)
  Reach-IsKeyed (later r s) = Step-IsKeyed s (Reach-IsKeyed r)
