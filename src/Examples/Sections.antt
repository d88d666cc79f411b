-- ===== src/Examples/Sections.antt =====
-- Sections and deadlines at small inputs.
use ai_daily_report.Prelude.{◌+◌, ◌≤◌, ◌<◌, ◌≡◌, ◌↔◌, ◌⊎◌, refl, codes, length, ok, arith}
use ai_daily_report.Budget.Sections.{section_separator_chars}
use ai_daily_report.Budget.Model.{RouteHint, ContextBudgetModel, reserved_delta}
use ai_daily_report.Decision.Actions.{input_chars_of}
use ai_daily_report.Rendering.Sections.{format, render_file_section, issue_line}
use ai_daily_report.Rendering.Fits.{render_file_section-reserved_delta}
use ai_daily_report.Deadline.{
  RunDeadlines, derive, derive_iff, finalization_reserve_ms, remaining_to_work_deadline,
  remaining_to_absolute_deadline, remaining-derive,
}
use ai_daily_report.Examples.Samples.{daily_context, small_model}
use ai_daily_report.Examples.Deciding.{note, decided_note}

abbrev model : ContextBudgetModel
model = record small_model { per_file_max_chars = 100000 }

abbrev route : RouteHint
route = record {
  relative_path = codes "notes.md";
  extension = codes ".md";
  hint_backend = codes "light_text_v2";
  hint_worker_lane = codes "rust_core";
  hint_max_excerpt_chars = 12000;
}

note_section :
    (render_file_section note decided_note.decision daily_context).0
    ≡ codes
        "### notes.md\n- action: keep\n- reason: small_file_keep\n- parser_backend: light_text_v2\n- worker_lane: rust_core\n- input_chars: 5\n- output_chars: 5\n```text\nhello\n```"
unfolding render_file_section format input_chars_of
note_section = refl

render_file_section-reserved_delta_example :
    (length (render_file_section note decided_note.decision daily_context).0
        + section_separator_chars
      ≤ reserved_delta model route)
    × (length (issue_line decided_note.decision (codes "PARSER_TIMEOUT"))
          + 1
          + section_separator_chars
        ≤ reserved_delta model route)
render_file_section-reserved_delta_example =
    render_file_section-reserved_delta model route daily_context note decided_note.decision
      (codes "PARSER_TIMEOUT") (record { limit = refl; path = refl; content = omega arith })
      (record { reason = omega arith; backend = omega arith; extension = omega arith })
      (omega arith)

abbrev minute : RunDeadlines
minute = record { origin_ms = 500; work_deadline_ms = 58500; absolute_deadline_ms = 60500 }

derive_iff_example : (derive 60000 500 ≡ ok minute) ↔ (
    (finalization_reserve_ms < 60000)
    × (500 + 60000 ≤ 18446744073709551615)
    × (minute.origin_ms ≡ 500)
    × (minute.absolute_deadline_ms ≡ 500 + 60000)
    × (minute.work_deadline_ms + finalization_reserve_ms ≡ minute.absolute_deadline_ms))
derive_iff_example = derive_iff 60000 500 minute

minute_eq : derive 60000 500 ≡ ok minute
unfolding derive
minute_eq = refl

remaining-derive_example :
    (remaining_to_absolute_deadline minute 500 ≡ 60000)
    × (remaining_to_work_deadline minute 500 + finalization_reserve_ms ≡ 60000)
    × ((remaining_to_work_deadline minute 1000 ≡ 0)
        ⊎ (remaining_to_absolute_deadline minute 1000
            ≡ remaining_to_work_deadline minute 1000 + finalization_reserve_ms))
remaining-derive_example = remaining-derive 60000 500 1000 minute minute_eq
