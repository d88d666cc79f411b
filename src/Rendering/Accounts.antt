-- ===== src/Rendering/Accounts.antt =====
-- What a context accounts for: every file once, by its status and by its decision.
use mathlib.Core.List.{Permᴰ}
use mathlib.Core.List.Permᴰ
use ai_daily_report.Prelude.{◌+◌, ◌≤◌, ◌≡◌, List, map, length}
use ai_daily_report.Contract.Profile.{ContextProfile}
use ai_daily_report.Decision.Evidence.{ContextFileEvidence}
use ai_daily_report.Rendering.Building.{BudgetedDecision, ContextBuildOutput, Building}

-- What a context that is built says of its files.
pub record IsAccounted (evidence : List ContextFileEvidence) (profile : ContextProfile)
    (out : ContextBuildOutput) : Type 0 where
  pub once :
      Permᴰ
        (map (λ (r : BudgetedDecision). r.file_identity) out.decisions)
        (map (λ (e : ContextFileEvidence). e.file_identity) evidence)
  pub all : out.source_file_count ≡ length evidence
  pub split :
      out.success_count + out.timeout_count + out.error_file_count + out.omitted_file_count
      ≡ out.source_file_count
  pub included : out.included_file_count ≡ out.success_count
  pub kinds : out.metadata_only_count + out.compressed_file_count ≤ out.included_file_count
  pub exact : out.output_chars ≡ length out.content
  pub fits : out.output_chars ≤ profile.global_max_chars
