-- ===== src/Rendering/Context.antt =====
-- rust/scanner_core/src/compressor.rs: `build_context`, the sections joined under the global budget.
-- `str::to_lowercase`, `str::trim_end` and the length of an encoded audit are arguments.
use ai_daily_report.Prelude.{
  ℕ, Bool, List, [], ◌∷◌, ◌++◌, map, Text, codes, length, is_empty, count_if, leb, ltb,
  if◌then◌else◌, show, saturating_add, Result, ok, ensure, ◌>>=◌, ◌>>◌, ◌==◌,
}
use ai_daily_report.Contract.Types.{ReportMode, ContextAction}
use ai_daily_report.Contract.Profile.{ContextProfile}
use ai_daily_report.Audit.Types.{ParsedContentAudit}
use ai_daily_report.Budget.Sections.{count_chars}
use ai_daily_report.Budget.Omitted.{OmittedSummaryPlan, build_plan}
use ai_daily_report.Decision.Evidence.{ContextFileEvidence}
use ai_daily_report.Decision.Actions.{DecidedFile, decide_files}
use ai_daily_report.Rendering.Sections.{render_run_summary, render_notice, render_file_section}
use ai_daily_report.Rendering.Summary.{
  OmittedRow, budget_model_mismatch, join_lines, summary_section,
}
use ai_daily_report.Rendering.Building.{
  parse_footer, BudgetedDecision, ContextBuildOutput, Building, is_success, is_timeout, is_error,
  status_count, not_parsed_count, sum_input_chars, insert_entry, join_blocks, omitted_candidate,
  include_file, omit_file, fail_file,
}

-- The tests of the whole.
unfoldable pub check_content : ℕ → Text → Result Text Text
unfolding count_chars budget_model_mismatch
check_content budget content = do
  ensure (leb (count_chars content) budget)
      (budget_model_mismatch (codes "rendered context exceeds the global budget"))
  ensure (ltb 0 (length content)) (codes "context budget produced an empty result")
  ok content

module _ (to_lowercase trim_end : Text → Text) (encoded_len : ParsedContentAudit → ℕ) where
  unfoldable pub join_sections : List Text → Text
  unfolding join_blocks
  join_sections sections = trim_end (join_blocks (map trim_end sections)) ++ b'\n' ∷ []

  unfoldable pub can_append_with_footer : List Text → Text → ℕ → Bool
  unfolding join_sections count_chars
  can_append_with_footer sections candidate global_budget =
      leb (count_chars (join_sections (sections ++ candidate ∷ parse_footer ∷ []))) global_budget

  unfoldable pub append_if_fits : List Text → Text → ℕ → List Text
  unfolding join_sections count_chars
  append_if_fits sections candidate global_budget =
      if leb (count_chars (join_sections (sections ++ candidate ∷ []))) global_budget
      then sections ++ candidate ∷ []
      else sections

  unfoldable pub append_parse_issues : List Text → List Text → ℕ → List Text
  unfolding append_if_fits join_lines
  append_parse_issues sections issues global_budget =
      append_if_fits sections
        (if is_empty issues then parse_footer else codes "## 解析问题\n" ++ join_lines issues)
        global_budget

  unfoldable pub append_omitted_summary :
      List Text → List OmittedRow → OmittedSummaryPlan → ℕ → Result Text (List Text)
  unfolding summary_section can_append_with_footer budget_model_mismatch
  append_omitted_summary sections omitted plan global_budget =
      if is_empty omitted
      then ok sections
      else summary_section plan.reservation omitted >>= (λ section.
        ensure (can_append_with_footer sections section global_budget)
          (budget_model_mismatch (codes "omitted summary exceeds the global context budget"))
        >> ok (sections ++ section ∷ []))

  -- The arm of a file that is rendered.
  unfoldable pub render_file : ContextProfile → Building → DecidedFile → Result Text Building
  unfolding render_file_section can_append_with_footer count_chars insert_entry
      budget_model_mismatch
  render_file profile b f =
      let rendered = render_file_section f.evidence f.decision profile in
      ensure (can_append_with_footer b.sections rendered.0 profile.global_max_chars)
        (budget_model_mismatch (codes "admitted file section exceeds the global context budget"))
      >> ok (include_file b f rendered)

  abbrev pub build_file_by :
      ContextAction
      → ContextProfile
      → OmittedSummaryPlan
      → Building
      → DecidedFile
      → Result Text Building
  build_file_by ContextAction.omit profile plan b f = ok (omit_file plan b f)
  build_file_by ContextAction.error profile plan b f = ok (fail_file b f)
  build_file_by _ profile plan b f = render_file profile b f

  -- The loop over the decided files.
  unfoldable pub build_files :
      ContextProfile → OmittedSummaryPlan → Building → List DecidedFile → Result Text Building
  unfolding render_file fail_file
  build_files profile plan b [] = ok b
  build_files profile plan b (f ∷ files) =
      build_file_by f.decision.action profile plan b f
      >>= (λ built. build_files profile plan built files)

  -- The sections before any file.
  abbrev pub opening : ContextProfile → ReportMode → ℕ → ℕ → ℕ → List Text
  opening profile report_mode source success failure =
      codes "# 文件证据上下文"
      ∷ render_run_summary report_mode profile source (show success) (show failure)
      ∷ render_notice profile
      ∷ codes "## 文件证据"
      ∷ []

  abbrev pub new_building : List Text → Building
  new_building sections = record {
    sections = sections;
    decisions = [];
    rendered = [];
    parse_issues = [];
    omitted_files = [];
    included = 0;
    metadata_only = 0;
    compressed = 0;
  }

  -- What follows the files, and the tests of the whole.
  unfoldable pub close_context : ContextProfile → OmittedSummaryPlan → Building → Result Text Text
  unfolding append_if_fits append_omitted_summary append_parse_issues join_sections check_content
  close_context profile plan b = do
    let budget = profile.global_max_chars
    let sections =
        if b.included == 0 then append_if_fits b.sections (codes "无文件证据") budget else b.sections
    summarized ← append_omitted_summary sections b.omitted_files plan budget
    check_content budget (join_sections (append_parse_issues summarized b.parse_issues budget))

  unfoldable pub build_decided :
      List DecidedFile → ContextProfile → ReportMode → Result Text ContextBuildOutput
  unfolding not_parsed_count sum_input_chars build_plan build_files close_context count_chars
      render_run_summary render_notice show
  build_decided decided profile report_mode = do
    let source = length decided
    let success = status_count is_success decided
    let timeout = status_count is_timeout decided
    let failed = status_count is_error decided
    not_parsed ← not_parsed_count source success timeout failed
    input_chars ← sum_input_chars 0 decided
    let plan = build_plan to_lowercase (map omitted_candidate decided) profile.global_max_chars
    built ←
        build_files profile plan
          (new_building
            (opening profile report_mode source success (saturating_add timeout failed)))
          decided
    content ← close_context profile plan built
    ok (record {
      content = content;
      source_file_count = source;
      success_count = success;
      timeout_count = timeout;
      included_file_count = built.included;
      omitted_file_count = not_parsed;
      error_file_count = failed;
      input_chars = input_chars;
      output_chars = count_chars content;
      metadata_only_count = built.metadata_only;
      compressed_file_count = built.compressed;
      truncated_file_count =
          count_if (λ (r : BudgetedDecision). r.decision.truncated) built.decisions;
      decisions = built.decisions;
      rendered_by_identity = built.rendered;
    })

  unfoldable pub build_context :
      List ContextFileEvidence → ContextProfile → ReportMode → Result Text ContextBuildOutput
  unfolding decide_files build_decided
  build_context evidence profile report_mode = do
    decided ← decide_files to_lowercase encoded_len evidence profile
    build_decided decided profile report_mode
