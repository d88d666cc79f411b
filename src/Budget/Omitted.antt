-- ===== src/Budget/Omitted.antt =====
-- rust/scanner_core/src/budget_model.rs: `OmittedSummaryPlan::build`.
use ai_daily_report.Prelude.{ℕ, ◌+◌, List, [], ◌∷◌, Text, leb, saturating_add, if◌then◌else◌}
use ai_daily_report.Prelude.Sorting.{sort_by_key}
use ai_daily_report.Nominal.{NominalKey, nominal_key, key_cmp}
use ai_daily_report.Budget.Sections.{
  omitted_summary_reservation, omitted_summary_fixed_chars, max_omitted_row_chars,
}

-- Also the shape of `SlotKey`.
pub record OmittedCandidate : Type 0 where
  pub file_identity : Text
  pub relative_path : Text
  pub extension : Text

pub record OmittedSummaryPlan : Type 0 where
  pub reservation : ℕ
  pub detail_slots : List OmittedCandidate

unfoldable pub row_cost : OmittedCandidate → ℕ
unfolding max_omitted_row_chars
row_cost file = max_omitted_row_chars file.relative_path + 1

-- The loop: rows are taken while they fit, and the first that does not fit ends it.
unfoldable pub take_slots : ℕ → ℕ → List OmittedCandidate → List OmittedCandidate
take_slots reservation used [] = []
take_slots reservation used (file ∷ files) =
    let rest = take_slots reservation (used + row_cost file) files in
    if leb (saturating_add used (row_cost file)) reservation then file ∷ rest else []

module _ (to_lowercase : Text → Text) where
  abbrev pub candidate_key : OmittedCandidate → NominalKey
  candidate_key file = nominal_key to_lowercase file.relative_path file.extension file.file_identity

  unfoldable pub build_plan : List OmittedCandidate → ℕ → OmittedSummaryPlan
  build_plan files global_max_chars = record {
    reservation = omitted_summary_reservation global_max_chars;
    detail_slots =
        take_slots (omitted_summary_reservation global_max_chars) omitted_summary_fixed_chars
          (sort_by_key key_cmp candidate_key files);
  }
