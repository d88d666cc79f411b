-- ===== src/RunStore/Progress.antt =====
-- A request that has no stored outcome starts as soon as no lease is live.
use mathlib.Core.Path.{subst}
use ai_daily_report.Prelude.{
  ℕ, ◌≡◌, inl, inr, refl, sym, ap, ◌∙◌, arith, Bool, true, false, Option, none, some, List, [], ◌∷◌,
  Text, count_if, text_eq, text_eq_refl, All, ok, Bool-cases, Option-cases,
}
use ai_daily_report.RunStore.Types.{
  RunStatus, is_running, is_abandoned, is_terminal, RunRow, LeaseRow, Tables,
}
use ai_daily_report.RunStore.Rows.{update}
use ai_daily_report.RunStore.Lease.{
  run_of_owner, attempt_of_owner, abandon_run, abandon_attempt, delete_lease, reclaim_expired_lease,
  lease_is_live,
}
use ai_daily_report.RunStore.Begin.{clear_lease, is_abandoned_run, query_existing_run}
use ai_daily_report.RunStore.Consistent.{run_live, RunBy, IsQuiet, IsHeld, IsConsistent}
use ai_daily_report.RunStore.Kept.{IsConsistent-at}
use ai_daily_report.RunStore.Keys.{IsKeyed, restartable}

-- The lease that keeps others out, if one does.
unfoldable pub lease_in_force : Option LeaseRow → ℕ → Bool
unfolding lease_is_live
lease_in_force none now = false
lease_in_force (some l) now = lease_is_live l now

-- A run that is found and runs or is abandoned can be restarted after the lease is cleared.
pub record IsCleared (existing : Option RunRow) (t cleared : Tables) : Type 0 where
  pub restarts :
      (r : RunRow)
      → existing ≡ some r
      → is_terminal r.status ≡ false
      → count_if (is_abandoned_run r.scan_run_id) cleared.runs ≡ 1

found_quiet :
    (rows : List RunRow) (request : Text) (r : RunRow)
    → query_existing_run rows request ≡ some r
    → All (λ x. run_live x ≡ false) rows
    → run_live r ≡ false
unfolding query_existing_run
found_quiet [] request r h q = ground arith
found_quiet (x ∷ rows) request r h q = elim (Bool-cases (text_eq x.request_id request)) [
  | inl e ↦ let same : x ≡ r = ground arith in subst (λ y. run_live y ≡ false) same q.0
  | inr e ↦ found_quiet rows request r (ground arith) q.1
]

-- A row that neither runs nor is final is abandoned.
abandoned_of :
    (s : RunStatus) → is_running s ≡ false → is_terminal s ≡ false → is_abandoned s ≡ true
unfolding is_terminal
abandoned_of s h k = ground arith

no_update : (rows : List RunRow) → update (λ r. false) (λ r. r) rows ≡ rows
no_update [] = refl
no_update (r ∷ rows) = ap (◌∷◌ r) (no_update rows)

none_restarts :
    (t : Tables) (request : Text) (r : RunRow)
    → IsQuiet t
    → IsKeyed t
    → query_existing_run t.runs request ≡ some r
    → is_terminal r.status ≡ false
    → count_if (is_abandoned_run r.scan_run_id) t.runs ≡ 1
none_restarts t request r q k h open_run =
    ap (count_if (is_abandoned_run r.scan_run_id)) (sym (no_update t.runs))
    ∙ restartable (λ x. false) (λ x. x) (λ x. run_live x ≡ false) t.runs request r (λ x. refl)
        (λ x live open_x. abandoned_of x.status live open_x) h k.1 q.0 open_run

swept_restarts :
    (owner : Text) (id now : ℕ) (t : Tables) (request : Text) (r : RunRow)
    → IsHeld owner id t
    → IsKeyed t
    → query_existing_run t.runs request ≡ some r
    → is_terminal r.status ≡ false
    → count_if
        (is_abandoned_run r.scan_run_id)
        (update (run_of_owner owner) (abandon_run now) t.runs)
      ≡ 1
swept_restarts owner id now t request r held k h open_run =
    restartable (run_of_owner owner) (abandon_run now) (RunBy owner id) t.runs request r (λ x. refl)
      (λ x by open_x. elim (Bool-cases (is_running x.status)) [
        | inl e ↦ ground arith
        | inr e ↦ ground (arith, abandoned_of x.status e open_x)
      ])
      h k.1 held.run open_run

pub clear_lease_over :
    (o : Option LeaseRow) (request : Text) (t : Tables) (now : ℕ)
    → t.lease ≡ o
    → IsConsistent t
    → IsKeyed t
    → lease_in_force o now ≡ false
    → (cleared : Tables) × (clear_lease o (query_existing_run t.runs request) t now ≡ ok cleared)
      × IsCleared (query_existing_run t.runs request) t cleared
unfolding lease_in_force clear_lease reclaim_expired_lease delete_lease
clear_lease_over none request t now e c k over =
    let quiet = IsConsistent-at t none e c in
    elim (Option-cases (query_existing_run t.runs request)) [
      | inl f ↦ (t, rw f refl, record { restarts = λ r g. none_restarts t request r quiet k g })
      | inr (r, f) ↦
          let stopped = found_quiet t.runs request r f quiet.0 in
          (t, rw f (ground arith), record { restarts = λ r g. none_restarts t request r quiet k g })
    ]
clear_lease_over (some l) request t now e c k over =
    let (id, held) = IsConsistent-at t (some l) e c in
    let mine = text_eq_refl l.owner_id in
    (
      record t {
        lease = none;
        runs = update (run_of_owner l.owner_id) (abandon_run now) t.runs;
        attempts = update (attempt_of_owner l.owner_id) (abandon_attempt now) t.attempts;
      },
      ground arith,
      record { restarts = λ r g. swept_restarts l.owner_id id now t request r held k g },
    )
