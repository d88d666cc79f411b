-- ===== src/RunStore/Starts.antt =====
-- What `begin_run` does once no stored outcome is found.
use ai_daily_report.Prelude.{
  ℕ, ◌+◌, ◌≡◌, ◌≤◌, ◌⊎◌, inl, inr, refl, ◌∙◌, arith, Bool, true, false, Option, none, some, List,
  [], ◌∷◌, ◌++◌, Text, any, count_if, text_eq_refl, ok, err, ◌>>=◌, Bool-cases, Result-cases,
  if◌then◌else◌,
}
use ai_daily_report.RunStore.Types.{
  StoreError, retryable, is_terminal, RunRow, LeaseRow, ActiveRun, Tables, CanonicalRequest,
  AttemptRuntime, i64_max,
}
use ai_daily_report.RunStore.Rows.{update}
use ai_daily_report.RunStore.Lease.{lease_expiry, is_active_run, ensure_owner}
use ai_daily_report.RunStore.Begin.{
  BeginRunOutcome, clear_lease, start_row, start_run, restart, new_run, new_attempt, new_lease,
  is_abandoned_run, runs_now, query_existing_run, replay, ensure_request_hash, load_stored,
}
use ai_daily_report.RunStore.Operations.{begin_transaction}
use ai_daily_report.RunStore.Steps.{Reach, Reach-IsConsistent}
use ai_daily_report.RunStore.Keyed.{Reach-IsKeyed}
use ai_daily_report.RunStore.Progress.{lease_in_force, IsCleared, clear_lease_over}

-- Without a stored outcome the run is not final.
replay_open :
    (domain_hash : Text → Text) (r : RunRow) (canonical : CanonicalRequest)
    → replay domain_hash (some r) canonical ≡ ok none
    → is_terminal r.status ≡ false
unfolding replay
replay_open domain_hash r canonical h = elim (Bool-cases (is_terminal r.status)) [
  | inr e ↦ e
  | inl e ↦ elim (Result-cases (load_stored domain_hash r)) [
    | inl (o, l) ↦ elim (Result-cases (ensure_request_hash domain_hash r canonical)) [
      | inl (_, k) ↦ absurd (ground arith)
      | inr (x, k) ↦ absurd (ground arith)
    ]
    | inr (x, l) ↦ elim (Result-cases (ensure_request_hash domain_hash r canonical)) [
      | inl (_, k) ↦ absurd (ground arith)
      | inr (y, k) ↦ absurd (ground arith)
    ]
  ]
]

-- A handle of a run and an owner, whatever its attempt.
abbrev handle : ℕ → ℕ → Text → Text → ActiveRun
handle id number owner request = record {
  scan_run_id = id;
  attempt_number = number;
  owner_id = owner;
  request_id = request;
}

any_append :
    (p : RunRow → Bool) (rows : List RunRow) (r : RunRow)
    → p r ≡ true
    → any p (rows ++ r ∷ []) ≡ true
any_append p [] r h = ground arith
any_append p (x ∷ rows) r h = ground (arith, any_append p rows r h)

any_restarted :
    (id number now : ℕ) (owner request : Text) (rows : List RunRow) (n : ℕ)
    → count_if (is_abandoned_run id) rows ≡ n + 1
    → any
        (is_active_run (handle id number owner request))
        (update (is_abandoned_run id) (restart owner now) rows)
      ≡ true
any_restarted id number now owner request [] n h = ground arith
any_restarted id number now owner request (r ∷ rows) n h =
    elim (Bool-cases (is_abandoned_run id r)) [
      | inl e ↦ ground (arith, text_eq_refl owner)
      | inr e ↦ ground (arith, any_restarted id number now owner request rows n)
    ]

start_row_total :
    (o : Option RunRow) (canonical : CanonicalRequest) (owner : Text) (now number : ℕ)
    (t cleared : Tables)
    → IsCleared o t cleared
    → ((r : RunRow) → o ≡ some r → is_terminal r.status ≡ false)
    → (id : ℕ) × (rows : Tables) × (start_row o canonical owner now cleared ≡ ok (id, rows))
      × ((m : ℕ) → any (is_active_run (handle id m owner canonical.request_id)) rows.runs ≡ true)
unfolding start_row is_terminal
start_row_total none canonical owner now number t cleared c f = (
  cleared.next_run_id,
  record cleared {
    runs = cleared.runs ++ new_run cleared.next_run_id canonical owner now ∷ [];
    next_run_id = cleared.next_run_id + 1;
  },
  refl,
  λ m.
      any_append (is_active_run (handle cleared.next_run_id m owner canonical.request_id))
        cleared.runs (new_run cleared.next_run_id canonical owner now)
        (ground (arith, text_eq_refl owner)),
)
start_row_total (some r) canonical owner now number t cleared c f =
    let open_run = f r refl in
    let one = c.restarts r refl open_run in
    (
      r.scan_run_id,
      record cleared {
        runs = update (is_abandoned_run r.scan_run_id) (restart owner now) cleared.runs;
      },
      ground arith,
      λ m. any_restarted r.scan_run_id m now owner canonical.request_id cleared.runs 0 one,
    )

start_run_total :
    (o : Option RunRow) (canonical : CanonicalRequest) (runtime : AttemptRuntime) (owner : Text)
    (now : ℕ) (t cleared : Tables)
    → IsCleared o t cleared
    → ((r : RunRow) → o ≡ some r → is_terminal r.status ≡ false)
    → now + 20000 ≤ i64_max
    → (a : ActiveRun) × (u : Tables) × (start_run o canonical runtime owner now cleared
        ≡ ok (BeginRunOutcome.started a, u))
      × (a.owner_id ≡ owner)
      × (a.request_id ≡ canonical.request_id)
      × (ensure_owner u a ≡ ok tt)
unfolding start_run lease_expiry ensure_owner new_lease
start_run_total o canonical runtime owner now t cleared c f range =
    let (id, rows, s, active) = start_row_total o canonical owner now 0 t cleared c f in
    let attempt = new_attempt rows id owner runtime now in
    let is_active = active attempt.attempt_number in
    (
      handle id attempt.attempt_number owner canonical.request_id,
      record rows {
        lease = some (new_lease owner now (now + 20000));
        attempts = rows.attempts ++ attempt ∷ [];
      },
      ground arith,
      refl,
      refl,
      ground (arith, text_eq_refl owner),
    )

-- A transaction that finds no stored outcome clears the lease and starts.
begin_transaction_open :
    (domain_hash : Text → Text) (canonical : CanonicalRequest) (runtime : AttemptRuntime)
    (owner : Text) (now : ℕ) (t : Tables)
    → replay domain_hash (query_existing_run t.runs canonical.request_id) canonical ≡ ok none
    → begin_transaction domain_hash canonical runtime owner now t ≡ (
        clear_lease t.lease (query_existing_run t.runs canonical.request_id) t now >>= (λ cleared.
          start_run
            (query_existing_run t.runs canonical.request_id)
            canonical
            runtime
            owner
            now
            cleared))
unfolding begin_transaction
begin_transaction_open domain_hash canonical runtime owner now t h = ground arith

-- A lease in force refuses.
clear_lease_refuses :
    (o : Option LeaseRow) (existing : Option RunRow) (t : Tables) (now : ℕ)
    → lease_in_force o now ≡ true
    → clear_lease o existing t now
      ≡ err (
          if runs_now existing
          then StoreError.request_in_progress
          else StoreError.scan_already_running)
unfolding clear_lease lease_in_force
clear_lease_refuses none existing t now h = ground arith
clear_lease_refuses (some l) existing t now h = ground arith

refusal_retryable :
    (b : Bool)
    → retryable (if b then StoreError.request_in_progress else StoreError.scan_already_running)
      ≡ true
unfolding retryable
refusal_retryable b = ground arith

-- What a transaction of `begin_run` does when no stored outcome answers the request, with a time
-- that leaves room for the lease, in every state that is reached: while no lease is in force it
-- starts a run of the new owner and of the request, which passes the check of ownership; while one
-- is, it fails with an error that may be retried, `scan_already_running` or, when the request itself
-- runs, `request_in_progress`.
pub begin_transaction_lem :
    (domain_hash : Text → Text) (canonical : CanonicalRequest) (runtime : AttemptRuntime)
    (owner : Text) (now : ℕ) (t : Tables)
    → Reach domain_hash t
    → replay domain_hash (query_existing_run t.runs canonical.request_id) canonical ≡ ok none
    → now + 20000 ≤ i64_max
    → ((lease_in_force t.lease now ≡ false)
        × (a : ActiveRun) × (u : Tables) × (begin_transaction domain_hash canonical runtime owner
              now t
            ≡ ok (BeginRunOutcome.started a, u))
        × (a.owner_id ≡ owner)
        × (a.request_id ≡ canonical.request_id)
        × (ensure_owner u a ≡ ok tt))
      ⊎ ((lease_in_force t.lease now ≡ true)
          × (e : StoreError) × (begin_transaction domain_hash canonical runtime owner now t ≡ err e)
          × (e ≡ (
              if runs_now (query_existing_run t.runs canonical.request_id)
              then StoreError.request_in_progress
              else StoreError.scan_already_running))
          × (retryable e ≡ true))
begin_transaction_lem domain_hash canonical runtime owner now t r h range =
    let existing = query_existing_run t.runs canonical.request_id in
    let opened = begin_transaction_open domain_hash canonical runtime owner now t h in
    elim (Bool-cases (lease_in_force t.lease now)) [
      | inl live ↦
          let refused = clear_lease_refuses t.lease existing t now live in
          inr
            (live, _, opened ∙ ground (arith, refused), refl, refusal_retryable (runs_now existing))
      | inr over ↦
          let (cleared, k, c) =
            clear_lease_over t.lease canonical.request_id t now refl
              (Reach-IsConsistent domain_hash r) (Reach-IsKeyed domain_hash r) over in
          let (a, u, s, mine, request, owns) =
            start_run_total existing canonical runtime owner now t cleared c
              (λ x e. replay_open domain_hash x canonical (rw (← e) h)) range in
          inl (over, a, u, opened ∙ ground (arith, k, s), mine, request, owns)
    ]
