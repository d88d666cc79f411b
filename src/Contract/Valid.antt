-- ===== src/Contract/Valid.antt =====
-- What the validation of a profile means.
use ai_daily_report.Prelude.{true, codes, ◌≡◌, ◌≤◌, ◌↔◌, arith, text_eq, ok}
use ai_daily_report.Contract.Profile.{ContextProfile, validate_context}

pub record IsContext (p : ContextProfile) : Type 0 where
  pub global_range : (1 ≤ p.global_max_chars) × (p.global_max_chars ≤ 10000000)
  pub per_file_range : (1 ≤ p.per_file_max_chars) × (p.per_file_max_chars ≤ p.global_max_chars)
  pub thresholds :
      (p.small_file_max_bytes ≡ 65536)
      × (p.medium_file_max_bytes ≡ 1048576)
      × (p.large_file_max_bytes ≡ 10485760)
  pub priority_policy : text_eq p.priority_policy_version (codes "budget_nominal_v2") ≡ true
  pub compression_policy : text_eq p.compression_policy_version (codes "markdown_context_v2") ≡ true

-- A context profile passes validation exactly when its budgets are in range, the per-file budget
-- fits the global one, and the thresholds and policy names are the fixed ones.
pub validate_context_iff : (p : ContextProfile) → (validate_context p ≡ ok tt) ↔ IsContext p
unfolding validate_context
validate_context_iff p = (λ h. ground arith, λ v. ground arith)
