-- ===== src/RunStore/Kept.antt =====
-- Every operation of the store keeps consistent tables consistent.
use mathlib.Core.Path.{subst}
use ai_daily_report.Prelude.{
  ℕ, ◌+◌, ◌≡◌, inl, inr, refl, sym, ap, ◌∙◌, arith, true, false, Option, none, some, Text, count_if,
  text_eq, ok, Option-cases, Result-cases,
}
use ai_daily_report.RunStore.Types.{
  RunRow, AttemptRow, LeaseRow, ActiveRun, Tables, WorkerFingerprint,
}
use ai_daily_report.RunStore.Rows.{update, count-keep, update-All}
use ai_daily_report.RunStore.Lease.{
  delete_lease, is_active_run, is_active_attempt, heartbeat_in_transaction, holds, lease_is_live,
  beat, lease_expiry,
}
use ai_daily_report.RunStore.Operations.{close_rows}
use ai_daily_report.RunStore.Consistent.{
  run_live, attempt_live, IsQuiet, RunBy, AttemptBy, IsHeld, IsConsistent, ConsistentAt,
  close-quiet,
}

-- What a heartbeat that succeeds leaves.
pub record IsBeaten (a : ActiveRun) (now : ℕ) (t u : Tables) : Type 0 where
  pub before : LeaseRow
  pub after : LeaseRow
  pub had : t.lease ≡ some before
  pub has : u.lease ≡ some after
  pub owner : after.owner_id ≡ before.owner_id
  pub mine : text_eq before.owner_id a.owner_id ≡ true
  pub live : lease_is_live before now ≡ true
  pub fresh : (after.heartbeat_at_ms ≡ now) × (after.expires_at_ms ≡ now + 20000)
  pub rows : u.runs ≡ update (is_active_run a) (λ r. record r { updated_at_ms = now }) t.runs
  pub attempts : u.attempts ≡ t.attempts
  pub next : u.next_run_id ≡ t.next_run_id

beat_inv :
    (o : Option LeaseRow) (owner : Text) (now expires : ℕ) (m : LeaseRow)
    → beat o owner now expires ≡ ok m
    → (l : LeaseRow) × (o ≡ some l)
      × (text_eq l.owner_id owner ≡ true)
      × (lease_is_live l now ≡ true)
      × (m ≡ record l { heartbeat_at_ms = now; expires_at_ms = expires })
unfolding beat
beat_inv none owner now expires m h = ground arith
beat_inv (some l) owner now expires m h = (l, refl, ground arith, ground arith, ground arith)

beaten_tables :
    (t : Tables) (a : ActiveRun) (now : ℕ) (u : Tables)
    → heartbeat_in_transaction t a now ≡ ok u
    → (m : LeaseRow) × (beat t.lease a.owner_id now (now + 20000) ≡ ok m)
      × (u ≡ record t {
        lease = some m;
        runs = update (is_active_run a) (λ r. record r { updated_at_ms = now }) t.runs;
      })
unfolding heartbeat_in_transaction lease_expiry
beaten_tables t a now u h = elim (Result-cases (beat t.lease a.owner_id now (now + 20000))) [
  | inl (m, b) ↦ (m, b, ground arith)
  | inr (x, b) ↦ absurd (ground arith)
]

pub heartbeat_in_transaction_inv :
    (t : Tables) (a : ActiveRun) (now : ℕ) (u : Tables)
    → heartbeat_in_transaction t a now ≡ ok u
    → IsBeaten a now t u
heartbeat_in_transaction_inv t a now u h =
    let (m, b, e) = beaten_tables t a now u h in
    let (l, had, mine, live, eq) = beat_inv t.lease a.owner_id now (now + 20000) m b in
    record {
      before = l;
      after = m;
      had = had;
      has = ap (λ x. x.lease) e;
      owner = ap (λ x. x.owner_id) eq;
      mine = mine;
      live = live;
      fresh = (ap (λ x. x.heartbeat_at_ms) eq, ap (λ x. x.expires_at_ms) eq);
      rows = ap (λ x. x.runs) e;
      attempts = ap (λ x. x.attempts) e;
      next = ap (λ x. x.next_run_id) e;
    }

pub IsConsistent-at :
    (t : Tables) (o : Option LeaseRow) → t.lease ≡ o → IsConsistent t → ConsistentAt o t
IsConsistent-at t o e c = subst (λ p. ConsistentAt p t) e c

pub IsConsistent-of :
    (t : Tables) (o : Option LeaseRow) → t.lease ≡ o → ConsistentAt o t → IsConsistent t
IsConsistent-of t o e c = subst (λ p. ConsistentAt p t) (sym e) c

pub beaten-IsHeld :
    (a : ActiveRun) (now id : ℕ) (t u : Tables) (b : IsBeaten a now t u)
    → IsHeld b.before.owner_id id t
    → IsHeld b.after.owner_id id u
beaten-IsHeld a now id t u b h = record {
  run =
      rw (b.rows, b.owner)
        (update-All (RunBy b.before.owner_id id) (is_active_run a)
          (λ r. record r { updated_at_ms = now }) t.runs (λ r p q. q) h.run);
  attempt = rw (b.attempts, b.owner) h.attempt;
  one_run = rw b.rows (
      count-keep run_live (is_active_run a) (λ r. record r { updated_at_ms = now }) (λ r. refl)
        t.runs
      ∙ h.one_run);
  one_attempt = rw b.attempts h.one_attempt;
}

pub heartbeat_in_transaction-IsConsistent :
    (t : Tables) (a : ActiveRun) (now : ℕ) (u : Tables)
    → heartbeat_in_transaction t a now ≡ ok u
    → IsConsistent t
    → IsConsistent u
heartbeat_in_transaction-IsConsistent t a now u h c =
    let b = heartbeat_in_transaction_inv t a now u h in
    let (id, held) = IsConsistent-at t (some b.before) b.had c in
    IsConsistent-of u (some b.after) b.has (id, beaten-IsHeld a now id t u b held)

-- Worker columns do not matter.
pub workers-IsConsistent :
    (t : Tables) (a : ActiveRun) (office pdf : Option WorkerFingerprint)
    → IsConsistent t
    → IsConsistent (record t {
      attempts =
          update
            (is_active_attempt a)
            (λ r. record r { office_worker = office; pdf_worker = pdf })
            t.attempts;
    })
workers-IsConsistent t a office pdf c = elim (Option-cases t.lease) [
  | inl e ↦
      let quiet = IsConsistent-at t none e c in
      IsConsistent-of _ none e (
        quiet.0,
        update-All (λ r. attempt_live r ≡ false) (is_active_attempt a)
            (λ r. record r { office_worker = office; pdf_worker = pdf }) t.attempts (λ r p q. q)
            quiet.1,
      )
  | inr (l, e) ↦
      let (id, held) = IsConsistent-at t (some l) e c in
      IsConsistent-of _ (some l) e (
        id,
        record {
          run = held.run;
          attempt =
              update-All (AttemptBy l.owner_id id) (is_active_attempt a)
                (λ r. record r { office_worker = office; pdf_worker = pdf }) t.attempts (λ r p q. q)
                held.attempt;
          one_run = held.one_run;
          one_attempt =
              count-keep attempt_live (is_active_attempt a)
                (λ r. record r { office_worker = office; pdf_worker = pdf }) (λ r. refl) t.attempts
              ∙ held.one_attempt;
        },
      )
]

pub close_rows_inv :
    (a : ActiveRun) (f : RunRow → RunRow) (g : AttemptRow → AttemptRow) (t u : Tables)
    → close_rows a f g t ≡ ok u
    → (count_if (is_active_run a) t.runs ≡ 1)
      × (count_if (is_active_attempt a) t.attempts ≡ 1)
      × (u ≡ record t {
        runs = update (is_active_run a) f t.runs;
        attempts = update (is_active_attempt a) g t.attempts;
      })
unfolding close_rows
close_rows_inv a f g t u h = ground arith

pub delete_lease_inv :
    (owner : Text) (t u : Tables)
    → delete_lease owner t ≡ ok u
    → (holds t.lease owner ≡ true) × (u ≡ record t { lease = none })
unfolding delete_lease
delete_lease_inv owner t u h = ground arith

-- After its rows are closed nothing runs.
pub closed-IsQuiet :
    (a : ActiveRun) (f : RunRow → RunRow) (g : AttemptRow → AttemptRow) (owner : Text) (id : ℕ)
    (t u : Tables)
    → ((r : RunRow) → run_live (f r) ≡ false)
    → ((r : AttemptRow) → attempt_live (g r) ≡ false)
    → IsHeld owner id t
    → close_rows a f g t ≡ ok u
    → IsQuiet u
closed-IsQuiet a f g owner id t u cf cg held h =
    let (m, n, e) = close_rows_inv a f g t u h in rw e (close-quiet a f g owner id t held cf cg m n)
