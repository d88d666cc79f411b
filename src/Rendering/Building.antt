-- ===== src/Rendering/Building.antt =====
-- rust/scanner_core/src/compressor.rs: the data of `build_context` and what it does of a single file.
-- Counters of files in memory are plain sums.
use ai_daily_report.Prelude.{
  ℕ, ◌+◌, Bool, true, false, Option, none, some, List, [], ◌∷◌, ◌++◌, Text, codes, any, count_if,
  text_eq, checked_add, checked_sub, Result, ok, err, Ordering,
}
use ai_daily_report.Prelude.Order.{text_cmp}
use ai_daily_report.Contract.Types.{ParseStatus, ContextAction, ContextDecision, Diagnostic}
use ai_daily_report.Budget.Sections.{count_chars}
use ai_daily_report.Budget.Omitted.{OmittedCandidate, OmittedSummaryPlan}
use ai_daily_report.Decision.Evidence.{ContextFileEvidence}
use ai_daily_report.Decision.ErrorText.{error_code_text}
use ai_daily_report.Decision.Actions.{DecidedFile}
use ai_daily_report.Rendering.Sections.{issue_line}
use ai_daily_report.Rendering.Summary.{OmittedRow}

abbrev pub parse_footer : Text
parse_footer = codes "## 解析问题\n- 未发现解析问题。"

pub record BudgetedDecision : Type 0 where
  pub file_identity : Text
  pub decision : ContextDecision

pub record ContextBuildOutput : Type 0 where
  pub content : Text
  pub source_file_count : ℕ
  pub success_count : ℕ
  pub timeout_count : ℕ
  pub included_file_count : ℕ
  pub omitted_file_count : ℕ
  pub error_file_count : ℕ
  pub input_chars : ℕ
  pub output_chars : ℕ
  pub metadata_only_count : ℕ
  pub compressed_file_count : ℕ
  pub truncated_file_count : ℕ
  pub decisions : List BudgetedDecision
  pub rendered_by_identity : List (Text × ℕ)

-- The variables of the loop over the decided files.
pub record Building : Type 0 where
  pub sections : List Text
  pub decisions : List BudgetedDecision
  pub rendered : List (Text × ℕ)
  pub parse_issues : List Text
  pub omitted_files : List OmittedRow
  pub included : ℕ
  pub metadata_only : ℕ
  pub compressed : ℕ

abbrev pub is_success : ParseStatus → Bool
is_success ParseStatus.success = true
is_success _ = false

abbrev pub is_timeout : ParseStatus → Bool
is_timeout ParseStatus.timeout = true
is_timeout _ = false

abbrev pub is_error : ParseStatus → Bool
is_error ParseStatus.error = true
is_error _ = false

abbrev pub status_count : (ParseStatus → Bool) → List DecidedFile → ℕ
status_count test = count_if (λ d. test d.evidence.parse_status)

-- The files that are in none of the counts.
unfoldable pub not_parsed_count : ℕ → ℕ → ℕ → ℕ → Result Text ℕ
not_parsed_count source success timeout failed = elim (checked_sub source success) [
  | none ↦ err (codes "context status counts overflow")
  | some a ↦ elim (checked_sub a timeout) [
    | none ↦ err (codes "context status counts overflow")
    | some b ↦ elim (checked_sub b failed) [
      | none ↦ err (codes "context status counts overflow")
      | some c ↦ ok c
    ]
  ]
]

unfoldable pub sum_input_chars : ℕ → List DecidedFile → Result Text ℕ
sum_input_chars total [] = ok total
sum_input_chars total (d ∷ ds) =
    let rest = sum_input_chars (total + d.decision.input_chars) ds in
    elim (checked_add total d.decision.input_chars) [
      | none ↦ err (codes "context input characters overflow")
      | some sum ↦ rest
    ]

-- `BTreeMap::insert`
unfoldable pub insert_entry : Text → ℕ → List (Text × ℕ) → List (Text × ℕ)
unfolding text_cmp
insert_entry key value [] = (key, value) ∷ []
insert_entry key value (e ∷ entries) = elim (text_cmp key e.0) [
  | Ordering.lt ↦ (key, value) ∷ e ∷ entries
  | Ordering.eq ↦ (e.0, value) ∷ entries
  | Ordering.gt ↦ e ∷ insert_entry key value entries
]

-- `join("\n\n")`
unfoldable pub join_blocks : List Text → Text
join_blocks [] = []
join_blocks (t ∷ []) = t
join_blocks (t ∷ u ∷ ts) = t ++ (codes "\n\n" ++ join_blocks (u ∷ ts))

abbrev pub omitted_candidate : DecidedFile → OmittedCandidate
omitted_candidate d = record {
  file_identity = d.evidence.file_identity;
  relative_path = d.evidence.relative_path;
  extension = d.evidence.extension;
}

abbrev pub omitted_row : OmittedSummaryPlan → ContextFileEvidence → ContextDecision → OmittedRow
omitted_row plan e d = record {
  relative_path = d.relative_path;
  extension = e.extension;
  reason = d.reason;
  input_chars = d.input_chars;
  in_detail_slot =
      any (λ (slot : OmittedCandidate). text_eq slot.file_identity e.file_identity)
        plan.detail_slots;
}

abbrev pub issue_code : Option Diagnostic → Text
issue_code none = codes "UNKNOWN_ERROR"
issue_code (some error) = error_code_text error.error_code

abbrev pub with_decision : Building → ContextFileEvidence → ContextDecision → Building
with_decision b e d = record b {
  decisions = b.decisions ++ record { file_identity = e.file_identity; decision = d } ∷ [];
}

-- The arm of an omitted file.
abbrev pub omit_file : OmittedSummaryPlan → Building → DecidedFile → Building
omit_file plan b f =
    let d = record f.decision { output_chars = 0 } in
    record (with_decision b f.evidence d) {
      omitted_files = b.omitted_files ++ omitted_row plan f.evidence d ∷ [];
    }

-- The arm of a failed file.
unfoldable pub fail_file : Building → DecidedFile → Building
unfolding issue_line error_code_text count_chars insert_entry
fail_file b f =
    let line = issue_line f.decision (issue_code f.evidence.error) in
    let chars = count_chars line + 1 in
    record (with_decision b f.evidence (record f.decision { output_chars = chars })) {
      parse_issues = b.parse_issues ++ line ∷ [];
      rendered = insert_entry f.evidence.file_identity chars b.rendered;
    }

abbrev pub counts_metadata : ContextAction → ℕ
counts_metadata ContextAction.metadata_only = 1
counts_metadata _ = 0

abbrev pub counts_compressed : ContextAction → ℕ
counts_compressed ContextAction.compress = 1
counts_compressed _ = 0

-- What a rendered file adds.
abbrev pub include_file : Building → DecidedFile → Text × ContextDecision → Building
include_file b f rendered = record (with_decision b f.evidence rendered.1) {
  sections = b.sections ++ rendered.0 ∷ [];
  included = b.included + 1;
  metadata_only = b.metadata_only + counts_metadata rendered.1.action;
  compressed = b.compressed + counts_compressed rendered.1.action;
  rendered = insert_entry f.evidence.file_identity (count_chars rendered.0) b.rendered;
}
