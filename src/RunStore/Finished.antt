-- ===== src/RunStore/Finished.antt =====
-- The operations of an active run: recording its workers, beating, abandoning and finalizing.
use mathlib.Core.Path.{subst}
use ai_daily_report.Prelude.{
  ℕ, ◌≡◌, ◌<◌, inl, inr, refl, sym, arith, true, false, Option, none, some, Text, ok, Result-cases,
}
use ai_daily_report.RunStore.Types.{
  RunStatus, is_running, is_terminal, LeaseRow, ActiveRun, Tables, WorkerFingerprint, checked_i64,
}
use ai_daily_report.RunStore.Rows.{update, delete-All}
use ai_daily_report.RunStore.Lease.{
  abandon_run, abandon_attempt, delete_lease, is_active_attempt, heartbeat_in_transaction, holds,
}
use ai_daily_report.RunStore.Operations.{
  record_worker_fingerprints, heartbeat, close_rows, abandon_active_run, Terminal, finalize, retain,
  protect, delete_runs, finish_run, finish_attempt, is_victim,
}
use ai_daily_report.RunStore.Consistent.{run_live, attempt_live, IsQuiet, IsConsistent}
use ai_daily_report.RunStore.Kept.{
  heartbeat_in_transaction_inv, heartbeat_in_transaction-IsConsistent, IsConsistent-at,
  beaten-IsHeld, workers-IsConsistent, close_rows_inv, delete_lease_inv, closed-IsQuiet,
}

pub heartbeat_inv :
    (a : ActiveRun) (now : ℕ) (t u : Tables)
    → heartbeat a now t ≡ ok u
    → heartbeat_in_transaction t a now ≡ ok u
unfolding heartbeat checked_i64
heartbeat_inv a now t u h = ground arith

pub heartbeat-IsConsistent :
    (a : ActiveRun) (now : ℕ) (t u : Tables)
    → heartbeat a now t ≡ ok u
    → IsConsistent t
    → IsConsistent u
heartbeat-IsConsistent a now t u h c =
    heartbeat_in_transaction-IsConsistent t a now u (heartbeat_inv a now t u h) c

pub record_worker_fingerprints_inv :
    (a : ActiveRun) (office pdf : Option WorkerFingerprint) (now : ℕ) (t u : Tables)
    → record_worker_fingerprints a office pdf now t ≡ ok u
    → heartbeat_in_transaction
        (record t {
          attempts =
              update
                (is_active_attempt a)
                (λ r. record r { office_worker = office; pdf_worker = pdf })
                t.attempts;
        })
        a
        now
      ≡ ok u
unfolding record_worker_fingerprints checked_i64
record_worker_fingerprints_inv a office pdf now t u h = ground arith

pub record_worker_fingerprints-IsConsistent :
    (a : ActiveRun) (office pdf : Option WorkerFingerprint) (now : ℕ) (t u : Tables)
    → record_worker_fingerprints a office pdf now t ≡ ok u
    → IsConsistent t
    → IsConsistent u
record_worker_fingerprints-IsConsistent a office pdf now t u h c =
    heartbeat_in_transaction-IsConsistent _ a now u
      (record_worker_fingerprints_inv a office pdf now t u h)
      (workers-IsConsistent t a office pdf c)

pub abandon_active_run_inv :
    (a : ActiveRun) (now : ℕ) (t u : Tables)
    → abandon_active_run a now t ≡ ok u
    → (closed : Tables) × (close_rows a (abandon_run now) (abandon_attempt now) t ≡ ok closed)
      × (delete_lease a.owner_id closed ≡ ok u)
unfolding abandon_active_run checked_i64
abandon_active_run_inv a now t u h =
    elim (Result-cases (close_rows a (abandon_run now) (abandon_attempt now) t)) [
      | inl (closed, e) ↦ (closed, e, ground arith)
      | inr (x, e) ↦ absurd (ground arith)
    ]

-- A lease that its owner holds is there.
held_lease :
    (o : Option LeaseRow) (owner : Text) → holds o owner ≡ true → (l : LeaseRow) × (o ≡ some l)
held_lease none owner h = ground arith
held_lease (some l) owner h = (l, refl)

pub abandon_active_run-IsConsistent :
    (a : ActiveRun) (now : ℕ) (t u : Tables)
    → abandon_active_run a now t ≡ ok u
    → IsConsistent t
    → IsConsistent u
abandon_active_run-IsConsistent a now t u h c =
    let (closed, k, d) = abandon_active_run_inv a now t u h in
    let (m, n, e) = close_rows_inv a (abandon_run now) (abandon_attempt now) t closed k in
    let (mine, f) = delete_lease_inv a.owner_id closed u d in
    let (l, has) =
      held_lease t.lease a.owner_id (subst (λ x. holds x.lease a.owner_id ≡ true) e mine) in
    let (id, held) = IsConsistent-at t (some l) has c in
    let quiet =
      closed-IsQuiet a (abandon_run now) (abandon_attempt now) l.owner_id id t closed (λ r. refl)
        (λ r. refl) held k in
    subst IsConsistent (sym f) quiet

pub finalize_inv :
    (a : ActiveRun) (batch : Terminal) (now remaining : ℕ) (t u : Tables)
    → finalize a batch now remaining t ≡ ok u
    → (beaten : Tables) × (closed : Tables) × (retained : Tables) × (heartbeat_in_transaction t a
          now
        ≡ ok beaten)
      × (close_rows a (finish_run batch now) (finish_attempt batch now) beaten ≡ ok closed)
      × (retain (protect a batch) closed ≡ ok retained)
      × (delete_lease a.owner_id retained ≡ ok u)
      × (is_terminal batch.status ≡ true)
      × (0 < remaining)
unfolding finalize checked_i64
finalize_inv a batch now remaining t u h = elim (Result-cases (heartbeat_in_transaction t a now)) [
  | inl (beaten, b) ↦
      elim (Result-cases (close_rows a (finish_run batch now) (finish_attempt batch now) beaten)) [
        | inl (closed, k) ↦ elim (Result-cases (retain (protect a batch) closed)) [
          | inl (retained, r) ↦
              (beaten, closed, retained, b, k, r, ground arith, ground arith, ground arith)
          | inr (x, r) ↦ absurd (ground arith)
        ]
        | inr (x, k) ↦ absurd (ground arith)
      ]
  | inr (x, b) ↦ absurd (ground arith)
]

pub retain_inv : (batch : Terminal) (t u : Tables) → retain batch t ≡ ok u → u ≡ delete_runs batch t
unfolding retain
retain_inv batch t u h = ground arith

terminal_not_running : (s : RunStatus) → is_terminal s ≡ true → is_running s ≡ false
unfolding is_terminal
terminal_not_running s h = ground arith

pub finalize-IsConsistent :
    (a : ActiveRun) (batch : Terminal) (now remaining : ℕ) (t u : Tables)
    → finalize a batch now remaining t ≡ ok u
    → IsConsistent t
    → IsConsistent u
finalize-IsConsistent a batch now remaining t u h c =
    let (beaten, closed, retained, b, k, r, d, s, _) = finalize_inv a batch now remaining t u h in
    let i = heartbeat_in_transaction_inv t a now beaten b in
    let (id, held) = IsConsistent-at t (some i.before) i.had c in
    let stopped = terminal_not_running batch.status s in
    let quiet =
      closed-IsQuiet a (finish_run batch now) (finish_attempt batch now) i.after.owner_id id beaten
        closed (λ r. stopped) (λ r. stopped) (beaten-IsHeld a now id t beaten i held) k in
    let swept : IsQuiet retained = rw (retain_inv (protect a batch) closed retained r) (
      delete-All (λ r. run_live r ≡ false) (is_victim (protect a batch)) closed.runs quiet.0,
      delete-All (λ r. attempt_live r ≡ false) _ closed.attempts quiet.1,
    ) in
    subst IsConsistent (sym (delete_lease_inv a.owner_id retained u d).1) swept
