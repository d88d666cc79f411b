-- ===== src/RunStore/Final.antt =====
-- The row of a final run is never written again: only retention takes it away.
use ai_daily_report.Prelude.{ℕ, ◌≡◌, true, ok}
use ai_daily_report.RunStore.Types.{RunRow, ActiveRun, Tables}
use ai_daily_report.RunStore.Operations.{Terminal, finalize, is_victim, protect}

-- The run of a final row is swept by the retention of a finalization.
pub IsSwept : (t u : Tables) (r : RunRow) → Type 0
IsSwept t u r =
    (a : ActiveRun) × (batch : Terminal) × (now : ℕ) × (remaining : ℕ) × (finalize a batch now
        remaining t
      ≡ ok u)
    × (is_victim (protect a batch) r ≡ true)
