-- ===== src/RunStore/Consistent.antt =====
-- Consistent tables: without a lease nothing runs, and with one exactly one run and one of its
-- attempts run, under the owner of the lease.
use ai_daily_report.Prelude.{
  ℕ, ◌≡◌, ◌⊎◌, refl, arith, Bool, true, false, Option, none, some, Text, count_if, text_eq, All,
}
use ai_daily_report.RunStore.Types.{is_running, RunRow, AttemptRow, LeaseRow, ActiveRun, Tables}
use ai_daily_report.RunStore.Rows.{update, count-clear, none_live, update-quiet}
use ai_daily_report.RunStore.Lease.{
  run_of_owner, attempt_of_owner, abandon_run, abandon_attempt, is_active_run, is_active_attempt,
}

abbrev pub run_live : RunRow → Bool
run_live r = is_running r.status

abbrev pub attempt_live : AttemptRow → Bool
attempt_live r = is_running r.status

abbrev pub IsQuiet : Tables → Type 0
IsQuiet t = All (λ r. run_live r ≡ false) t.runs × All (λ r. attempt_live r ≡ false) t.attempts

-- A row that runs belongs to this owner and this run.
abbrev pub RunBy : Text → ℕ → RunRow → Type 0
RunBy owner id r = (run_live r ≡ false) ⊎ ((text_eq r.owner_id owner ≡ true) × (r.scan_run_id ≡ id))

abbrev pub AttemptBy : Text → ℕ → AttemptRow → Type 0
AttemptBy owner id r =
    (attempt_live r ≡ false) ⊎ ((text_eq r.owner_id owner ≡ true) × (r.scan_run_id ≡ id))

pub record IsHeld (owner : Text) (id : ℕ) (t : Tables) : Type 0 where
  pub run : All (RunBy owner id) t.runs
  pub attempt : All (AttemptBy owner id) t.attempts
  pub one_run : count_if run_live t.runs ≡ 1
  pub one_attempt : count_if attempt_live t.attempts ≡ 1

abbrev pub ConsistentAt : Option LeaseRow → Tables → Type 0
ConsistentAt none t = IsQuiet t
ConsistentAt (some l) t = (id : ℕ) × IsHeld l.owner_id id t

abbrev pub IsConsistent : Tables → Type 0
IsConsistent t = ConsistentAt t.lease t

-- Abandoning all that an owner runs leaves nothing running.
pub reclaim-quiet :
    (owner : Text) (id now : ℕ) (t : Tables)
    → IsHeld owner id t
    → All (λ r. run_live r ≡ false) (update (run_of_owner owner) (abandon_run now) t.runs)
      × All
          (λ r. attempt_live r ≡ false)
          (update (attempt_of_owner owner) (abandon_attempt now) t.attempts)
reclaim-quiet owner id now t h = (
  update-quiet (RunBy owner id) run_live (run_of_owner owner) (abandon_run now) t.runs
      (λ r p live. ground arith) (λ r. refl) h.run,
  update-quiet (AttemptBy owner id) attempt_live (attempt_of_owner owner) (abandon_attempt now)
      t.attempts (λ r p live. ground arith) (λ r. refl) h.attempt,
)

-- Closing the one row that runs leaves nothing running.
pub close-quiet :
    (a : ActiveRun) (set_run : RunRow → RunRow) (set_attempt : AttemptRow → AttemptRow)
    (owner : Text) (id : ℕ) (t : Tables)
    → IsHeld owner id t
    → ((r : RunRow) → run_live (set_run r) ≡ false)
    → ((r : AttemptRow) → attempt_live (set_attempt r) ≡ false)
    → count_if (is_active_run a) t.runs ≡ 1
    → count_if (is_active_attempt a) t.attempts ≡ 1
    → All (λ r. run_live r ≡ false) (update (is_active_run a) set_run t.runs)
      × All (λ r. attempt_live r ≡ false) (update (is_active_attempt a) set_attempt t.attempts)
close-quiet a set_run set_attempt owner id t h f g m n = (
  none_live run_live _ (
      omega (
        arith,
        h.one_run,
        count-clear run_live (is_active_run a) set_run (λ r p. ground arith) f t.runs,
      )),
  none_live attempt_live _ (
      omega (
        arith,
        h.one_attempt,
        count-clear attempt_live (is_active_attempt a) set_attempt (λ r p. ground arith) g
            t.attempts,
      )),
)
