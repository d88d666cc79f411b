-- ===== src/RunStore/Begun.antt =====
-- The transaction of `begin_run`: it replays, or it clears the lease and starts.
use mathlib.Core.Path.{subst}
use ai_daily_report.Prelude.{
  ℕ, ◌≡◌, ◌⊎◌, inl, inr, refl, sym, arith, Option, some, Text, ok, Option-cases, Result-cases,
}
use ai_daily_report.RunStore.Types.{RunRow, Tables, CanonicalRequest, AttemptRuntime, checked_i64}
use ai_daily_report.RunStore.Lease.{lease_expiry}
use ai_daily_report.RunStore.Begin.{
  BeginRunOutcome, clear_lease, start_row, start_run, query_existing_run, replay,
}
use ai_daily_report.RunStore.Operations.{begin_transaction, begin_run}
use ai_daily_report.RunStore.Consistent.{IsConsistent}
use ai_daily_report.RunStore.Kept.{IsConsistent-of}
use ai_daily_report.RunStore.Started.{clear_lease-IsQuiet, start_run-IsBegun}

-- The row of a run that starts.
pub start_run_row :
    (o : Option RunRow) (canonical : CanonicalRequest) (runtime : AttemptRuntime) (owner : Text)
    (now : ℕ) (t : Tables) (outcome : BeginRunOutcome) (u : Tables)
    → start_run o canonical runtime owner now t ≡ ok (outcome, u)
    → (id : ℕ) × (rows : Tables) × (start_row o canonical owner now t ≡ ok (id, rows))
      × (u.runs ≡ rows.runs)
      × (u.next_run_id ≡ rows.next_run_id)
unfolding start_run lease_expiry
start_run_row o canonical runtime owner now t outcome u h =
    elim (Result-cases (start_row o canonical owner now t)) [
      | inl ((id, rows), s) ↦ (id, rows, s, ground arith, ground arith)
      | inr (x, s) ↦ absurd (ground arith)
    ]

module _ (domain_hash : Text → Text) where
  -- A transaction of `begin_run` replays and changes nothing, or starts.
  pub begin_transaction_cases :
      (canonical : CanonicalRequest) (runtime : AttemptRuntime) (owner : Text) (now : ℕ)
      (t : Tables) (outcome : BeginRunOutcome) (u : Tables)
      → begin_transaction domain_hash canonical runtime owner now t ≡ ok (outcome, u)
      → (u ≡ t)
        ⊎ ((cleared : Tables) × (clear_lease t.lease
                (query_existing_run t.runs canonical.request_id)
                t
                now
              ≡ ok cleared)
            × (start_run
                  (query_existing_run t.runs canonical.request_id)
                  canonical
                  runtime
                  owner
                  now
                  cleared
                ≡ ok (outcome, u)))
  unfolding begin_transaction
  begin_transaction_cases canonical runtime owner now t outcome u h =
      let existing = query_existing_run t.runs canonical.request_id in
      elim (Result-cases (replay domain_hash existing canonical)) [
        | inl (early, r) ↦ elim (Option-cases early) [
          | inr (o, e) ↦ inl (ground arith)
          | inl e ↦ elim (Result-cases (clear_lease t.lease existing t now)) [
            | inl (cleared, k) ↦ inr (cleared, k, ground arith)
            | inr (x, k) ↦ absurd (ground arith)
          ]
        ]
        | inr (x, r) ↦ absurd (ground arith)
      ]

  pub begin_run_cases :
      (store_path request_id : Text) (canonical : CanonicalRequest) (runtime : AttemptRuntime)
      (owner : Text) (now : ℕ) (before t : Tables) (outcome : BeginRunOutcome) (u : Tables)
      → begin_run domain_hash store_path request_id canonical runtime owner now before t
        ≡ ok (outcome, u)
      → (u ≡ t) ⊎ (begin_transaction domain_hash canonical runtime owner now t ≡ ok (outcome, u))
  unfolding begin_run checked_i64
  begin_run_cases store_path request_id canonical runtime owner now before t outcome u h =
      elim (Result-cases
        (replay domain_hash (query_existing_run before.runs request_id) canonical)) [
          | inl (early, r) ↦ elim (Option-cases early) [
            | inr (o, e) ↦ inl (ground arith)
            | inl e ↦ inr (ground arith)
          ]
          | inr (x, r) ↦ absurd (ground arith)
        ]

  pub begin_run-IsConsistent :
      (store_path request_id : Text) (canonical : CanonicalRequest) (runtime : AttemptRuntime)
      (owner : Text) (now : ℕ) (before t : Tables) (outcome : BeginRunOutcome) (u : Tables)
      → begin_run domain_hash store_path request_id canonical runtime owner now before t
        ≡ ok (outcome, u)
      → IsConsistent t
      → IsConsistent u
  begin_run-IsConsistent store_path request_id canonical runtime owner now before t outcome u h c =
      elim (begin_run_cases store_path request_id canonical runtime owner now before t outcome u
        h) [
          | inl e ↦ subst IsConsistent (sym e) c
          | inr b ↦ elim (begin_transaction_cases canonical runtime owner now t outcome u b) [
            | inl e ↦ subst IsConsistent (sym e) c
            | inr (cleared, k, s) ↦
                let existing = query_existing_run t.runs canonical.request_id in
                let (quiet, _) = clear_lease-IsQuiet t.lease existing t now cleared refl k c in
                let i =
                  start_run-IsBegun existing canonical runtime owner now cleared outcome u quiet
                    s in
                IsConsistent-of u (some i.lease) i.has (i.run.scan_run_id, rw i.owned i.held)
          ]
        ]
