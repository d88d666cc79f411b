-- ===== src/Examples/Contexts.antt =====
-- The context of a note and of a file that was not parsed.
use ai_daily_report.Prelude.{ℕ, ◌≡◌, refl, some, [], ◌∷◌, Text, codes, Result, ok, err, show}
use ai_daily_report.Prelude.Order.{text_cmp}
use ai_daily_report.Prelude.Sorting.{sort_by_key, sort_by, insert_by}
use ai_daily_report.Contract.Types.{ReportMode, ParseStatus, validate_decision}
use ai_daily_report.Contract.Checks.{is_absolute_path, is_extension}
use ai_daily_report.Nominal.{nominal_key, key_cmp}
use ai_daily_report.Audit.Types.{ParsedContentAudit}
use ai_daily_report.Budget.Omitted.{build_plan, take_slots, row_cost}
use ai_daily_report.Budget.Sections.{omitted_summary_fixed_chars, omitted_summary_reservation}
use ai_daily_report.Decision.Evidence.{ContextFileEvidence, validate_evidence, check_status}
use ai_daily_report.Decision.Actions.{decide_file, decide_files, status_action, input_chars_of}
use ai_daily_report.Examples.Samples.{ascii_lower, daily_context}
use ai_daily_report.Examples.Deciding.{note}
use ai_daily_report.Rendering.Sections.{
  format, render_run_summary, render_notice, body_of, rendered_decision, body_section,
  render_file_section,
}
use ai_daily_report.Rendering.Summary.{
  summary_section, summary_text, checked_section, header_used, header_lines, detail_rows, groups_of,
  aggregate, other_rows, join_lines, group_line, bump,
}
use ai_daily_report.Rendering.Building.{
  ContextBuildOutput, not_parsed_count, sum_input_chars, insert_entry, join_blocks,
}
use ai_daily_report.Rendering.Context.{
  join_sections, can_append_with_footer, append_if_fits, append_parse_issues,
  append_omitted_summary, render_file, build_files, check_content, close_context, build_decided,
  build_context,
}

abbrev lengths : ParsedContentAudit → ℕ
lengths a = 400

abbrev drop_spaces : Text → Text
drop_spaces text = text

abbrev skipped : ContextFileEvidence
skipped = record note {
  file_identity = codes "id-4";
  absolute_path = codes "/d/late.md";
  relative_path = codes "late.md";
  content = [];
  parse_status = ParseStatus.not_parsed;
  reason = some (codes "quota");
}

abbrev empty_output : ContextBuildOutput
empty_output = record {
  content = [];
  source_file_count = 0;
  success_count = 0;
  timeout_count = 0;
  included_file_count = 0;
  omitted_file_count = 0;
  error_file_count = 0;
  input_chars = 0;
  output_chars = 0;
  metadata_only_count = 0;
  compressed_file_count = 0;
  truncated_file_count = 0;
  decisions = [];
  rendered_by_identity = [];
}

abbrev output_of : Result Text ContextBuildOutput → ContextBuildOutput
output_of (err e) = empty_output
output_of (ok out) = out

abbrev built : Result Text ContextBuildOutput
built =
    build_context ascii_lower drop_spaces lengths (skipped ∷ note ∷ []) daily_context
      ReportMode.daily

counted :
    ((output_of built).source_file_count ≡ 2)
    × ((output_of built).included_file_count ≡ 1)
    × ((output_of built).omitted_file_count ≡ 1)
unfolding build_context build_decided decide_files decide_file status_action validate_evidence
    check_status validate_decision is_absolute_path is_extension nominal_key sort_by_key sort_by
    insert_by text_cmp not_parsed_count sum_input_chars build_plan build_files render_file
    close_context check_content append_if_fits append_omitted_summary append_parse_issues
    can_append_with_footer join_sections join_blocks summary_section summary_text checked_section
    header_used header_lines detail_rows groups_of aggregate other_rows join_lines group_line bump
    format show render_run_summary render_notice render_file_section rendered_decision body_section
    body_of insert_entry key_cmp input_chars_of take_slots omitted_summary_fixed_chars row_cost
    omitted_summary_reservation
counted = (refl, refl, refl)
