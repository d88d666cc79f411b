-- ===== src/RunStore/Started.antt =====
-- A run that begins holds the lease alone.
use ai_daily_report.Prelude.{
  ℕ, ◌+◌, ◌≡◌, inl, inr, refl, arith, true, false, Option, none, some, [], ◌∷◌, ◌++◌, Text,
  count_if, ◌==◌, text_eq_refl, All, All-append, ok, Result-cases,
}
use ai_daily_report.RunStore.Types.{
  RunRow, LeaseRow, ActiveRun, Tables, CanonicalRequest, AttemptRuntime,
}
use ai_daily_report.RunStore.Rows.{
  update, count-set, count-none, count-append, update-into, All-map,
}
use ai_daily_report.RunStore.Lease.{
  run_of_owner, attempt_of_owner, abandon_run, abandon_attempt, delete_lease, reclaim_expired_lease,
  lease_expiry,
}
use ai_daily_report.RunStore.Begin.{
  BeginRunOutcome, clear_lease, start_row, start_run, restart, new_run, new_attempt, new_lease,
  is_abandoned_run,
}
use ai_daily_report.RunStore.Consistent.{
  run_live, attempt_live, IsQuiet, RunBy, AttemptBy, IsHeld, IsConsistent, reclaim-quiet,
}
use ai_daily_report.RunStore.Kept.{IsConsistent-at}

-- Where the lease is cleared nothing runs.
pub clear_lease-IsQuiet :
    (o : Option LeaseRow) (existing : Option RunRow) (t : Tables) (now : ℕ) (u : Tables)
    → t.lease ≡ o
    → clear_lease o existing t now ≡ ok u
    → IsConsistent t
    → IsQuiet u × (u.lease ≡ none)
unfolding clear_lease reclaim_expired_lease delete_lease
clear_lease-IsQuiet none existing t now u e h c =
    let same : u ≡ t = ground arith in rw same (IsConsistent-at t none e c, e)
clear_lease-IsQuiet (some l) existing t now u e h c =
    let (id, held) = IsConsistent-at t (some l) e c in
    let swept : u ≡ record t {
      lease = none;
      runs = update (run_of_owner l.owner_id) (abandon_run now) t.runs;
      attempts = update (attempt_of_owner l.owner_id) (abandon_attempt now) t.attempts;
    } =
      ground arith in
    rw swept (reclaim-quiet l.owner_id id now t held, refl)

-- One row runs after the row of the run is written.
pub record IsStarted (owner : Text) (id : ℕ) (t u : Tables) : Type 0 where
  pub run : All (RunBy owner id) u.runs
  pub one_run : count_if run_live u.runs ≡ 1
  pub attempts : u.attempts ≡ t.attempts

same_id : (m n : ℕ) → (m == n) ≡ true → m ≡ n
same_id m n h = ground arith

start_row-IsStarted :
    (o : Option RunRow) (canonical : CanonicalRequest) (owner : Text) (now : ℕ) (t : Tables)
    (id : ℕ) (u : Tables)
    → IsQuiet t
    → start_row o canonical owner now t ≡ ok (id, u)
    → IsStarted owner id t u
unfolding start_row
start_row-IsStarted none canonical owner now t id u q h =
    let e : u ≡ record t {
      runs = t.runs ++ new_run t.next_run_id canonical owner now ∷ [];
      next_run_id = t.next_run_id + 1;
    } =
      ground arith in
    let i : id ≡ t.next_run_id = ground arith in
    rw (e, i)
      (record {
        run =
            All-append (RunBy owner t.next_run_id) t.runs
              (new_run t.next_run_id canonical owner now ∷ [])
              (All-map (λ r. run_live r ≡ false) (RunBy owner t.next_run_id) t.runs (λ r f. inl f)
                q.0)
              (inr (text_eq_refl owner, refl), tt);
        one_run = omega (
          arith,
          count-append run_live t.runs (new_run t.next_run_id canonical owner now ∷ []),
          count-none run_live t.runs q.0,
        );
        attempts = refl;
      })
start_row-IsStarted (some r) canonical owner now t id u q h =
    let e : u
        ≡ record t { runs = update (is_abandoned_run r.scan_run_id) (restart owner now) t.runs } =
      ground arith in
    let i : id ≡ r.scan_run_id = ground arith in
    let one : count_if (is_abandoned_run r.scan_run_id) t.runs ≡ 1 = ground arith in
    rw (e, i)
      (record {
        run =
            update-into (λ r. run_live r ≡ false) (RunBy owner r.scan_run_id)
              (is_abandoned_run r.scan_run_id) (restart owner now) t.runs
              (λ x f hit.
                inr (text_eq_refl owner, same_id x.scan_run_id r.scan_run_id (ground arith)))
              (λ x f. inl f) q.0;
        one_run = omega (
          arith,
          one,
          count-set run_live (is_abandoned_run r.scan_run_id) (restart owner now)
              (λ x hit. ground arith) (λ x. refl) t.runs,
          count-none run_live t.runs q.0,
        );
        attempts = refl;
      })

started-IsHeld :
    (owner : Text) (id : ℕ) (t rows : Tables) (runtime : AttemptRuntime) (now : ℕ)
    → IsQuiet t
    → IsStarted owner id t rows
    → IsHeld owner id (record rows {
      lease = some (new_lease owner now (now + 20000));
      attempts = rows.attempts ++ new_attempt rows id owner runtime now ∷ [];
    })
unfolding new_attempt
started-IsHeld owner id t rows runtime now q i =
    let quiet : All (λ r. attempt_live r ≡ false) rows.attempts = rw i.attempts q.1 in
    record {
      run = i.run;
      attempt =
          All-append (AttemptBy owner id) rows.attempts (new_attempt rows id owner runtime now ∷ [])
            (All-map (λ r. attempt_live r ≡ false) (AttemptBy owner id) rows.attempts (λ r f. inl f)
              quiet)
            (inr (text_eq_refl owner, refl), tt);
      one_run = i.one_run;
      one_attempt = omega (
        arith,
        count-append attempt_live rows.attempts (new_attempt rows id owner runtime now ∷ []),
        count-none attempt_live rows.attempts quiet,
      );
    }

-- What a run that starts is.
pub record IsBegun (owner : Text) (t u : Tables) (outcome : BeginRunOutcome) : Type 0 where
  pub run : ActiveRun
  pub is_run : outcome ≡ BeginRunOutcome.started run
  pub by : run.owner_id ≡ owner
  pub lease : LeaseRow
  pub has : u.lease ≡ some lease
  pub owned : lease.owner_id ≡ owner
  pub held : IsHeld owner run.scan_run_id u

pub start_run-IsBegun :
    (o : Option RunRow) (canonical : CanonicalRequest) (runtime : AttemptRuntime) (owner : Text)
    (now : ℕ) (t : Tables) (outcome : BeginRunOutcome) (u : Tables)
    → IsQuiet t
    → start_run o canonical runtime owner now t ≡ ok (outcome, u)
    → IsBegun owner t u outcome
unfolding start_run lease_expiry
start_run-IsBegun o canonical runtime owner now t outcome u q h =
    elim (Result-cases (start_row o canonical owner now t)) [
      | inl ((id, rows), s) ↦
          let i = start_row-IsStarted o canonical owner now t id rows q s in
          let attempt = new_attempt rows id owner runtime now in
          let run : ActiveRun = record {
            scan_run_id = id;
            attempt_number = attempt.attempt_number;
            owner_id = owner;
            request_id = canonical.request_id;
          } in
          let is_run : outcome ≡ BeginRunOutcome.started run = ground arith in
          let e : u ≡ record rows {
            lease = some (new_lease owner now (now + 20000));
            attempts = rows.attempts ++ attempt ∷ [];
          } =
            ground arith in
          rw e (record {
            run = run;
            is_run = is_run;
            by = refl;
            lease = new_lease owner now (now + 20000);
            has = refl;
            owned = unfold new_lease in refl;
            held = started-IsHeld owner id t rows runtime now q i;
          })
      | inr (x, s) ↦ absurd (ground arith)
    ]
