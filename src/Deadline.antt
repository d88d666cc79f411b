-- ===== src/Deadline.antt =====
-- rust/scanner_core/src/deadline.rs: the deadlines of a run. The clock enters by what it reads.
use ai_daily_report.Prelude.{
  ℕ, ◌+◌, ◌-◌, ◌≤◌, ◌<◌, ◌≡◌, ◌↔◌, ◌⊎◌, arith, Bool, false, Option, none, some, Text, codes, not,
  leb, ◌==◌, ◌||◌, u64_max, checked_add, checked_sub, Result, ok, err, ensure, ◌>>=◌, ◌>>◌,
}

abbrev pub finalization_reserve_ms : ℕ
finalization_reserve_ms = 2000

pub record RunDeadlines : Type 0 where
  pub origin_ms : ℕ
  pub work_deadline_ms : ℕ
  pub absolute_deadline_ms : ℕ

abbrev ok_or_else : Option ℕ → Text → Result Text ℕ
ok_or_else none message = err message
ok_or_else (some n) message = ok n

-- `Option == Some(n)`
abbrev is_just : Option ℕ → ℕ → Bool
is_just none n = false
is_just (some m) n = m == n

-- `RunDeadlines::validate`
unfoldable pub validate_deadlines : RunDeadlines → ℕ → Result Text (Unit {0})
validate_deadlines d total_deadline_ms =
    ensure
      (not (
        not (is_just (checked_sub d.absolute_deadline_ms d.origin_ms) total_deadline_ms)
        || not (
            is_just (checked_sub d.absolute_deadline_ms d.work_deadline_ms) finalization_reserve_ms)
        || leb d.work_deadline_ms d.origin_ms))
      (codes "deadline pair does not match the profile total and finalization reserve")

-- `RunDeadlines::derive`, from the reading of the clock.
unfoldable pub derive : ℕ → ℕ → Result Text RunDeadlines
unfolding validate_deadlines
derive total_deadline_ms origin_ms = do
  absolute ←
      ok_or_else (checked_add origin_ms total_deadline_ms) (codes "deadline arithmetic overflowed")
  work ←
      ok_or_else (checked_sub absolute finalization_reserve_ms) (codes "work deadline underflowed")
  let deadlines : RunDeadlines = record {
    origin_ms = origin_ms;
    work_deadline_ms = work;
    absolute_deadline_ms = absolute;
  }
  validate_deadlines deadlines total_deadline_ms
  ok deadlines

-- `u64::saturating_sub` of a reading of the clock.
unfoldable pub remaining_to_work_deadline : RunDeadlines → ℕ → ℕ
remaining_to_work_deadline d now_ms = d.work_deadline_ms - now_ms

unfoldable pub remaining_to_absolute_deadline : RunDeadlines → ℕ → ℕ
remaining_to_absolute_deadline d now_ms = d.absolute_deadline_ms - now_ms

-- Deadlines are derived exactly when the total is over the reserve and its end is a `u64`; they
-- start at the reading, end the total later, and work ends one reserve before that.
pub derive_iff :
    (total origin : ℕ) (d : RunDeadlines)
    → (derive total origin ≡ ok d) ↔ (
        (finalization_reserve_ms < total)
        × (origin + total ≤ u64_max)
        × (d.origin_ms ≡ origin)
        × (d.absolute_deadline_ms ≡ origin + total)
        × (d.work_deadline_ms + finalization_reserve_ms ≡ d.absolute_deadline_ms))
unfolding derive
derive_iff total origin d = (λ h. ground arith, λ h. ground arith)

-- While the work deadline is not reached, the absolute one is at least the reserve away, and at the
-- origin exactly the total is left.
pub remaining-derive :
    (total origin now : ℕ) (d : RunDeadlines)
    → derive total origin ≡ ok d
    → (remaining_to_absolute_deadline d origin ≡ total)
      × (remaining_to_work_deadline d origin + finalization_reserve_ms ≡ total)
      × ((remaining_to_work_deadline d now ≡ 0)
          ⊎ (remaining_to_absolute_deadline d now
              ≡ remaining_to_work_deadline d now + finalization_reserve_ms))
unfolding remaining_to_work_deadline remaining_to_absolute_deadline
remaining-derive total origin now d h =
    let facts = (derive_iff total origin d).0 h in ground (arith, facts)
