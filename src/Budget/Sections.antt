-- ===== src/Budget/Sections.antt =====
-- rust/scanner_core/src/budget_model.rs: worst-case sizes of rendered sections. Lengths of texts
-- held in memory stay far below 2^64, so their sums do not wrap.
use ai_daily_report.Prelude.{ℕ, ◌+◌, ◌*◌, ◌/◌, min, Text, codes, length, u64_max}

unfoldable pub count_chars : Text → ℕ
count_chars = length

abbrev pub omitted_summary_reservation_cap : ℕ
omitted_summary_reservation_cap = 12000

abbrev pub omitted_reservation_fraction_percent : ℕ
omitted_reservation_fraction_percent = 20

abbrev pub max_u64_digits : ℕ
max_u64_digits = 20

abbrev pub max_section_reason_chars : ℕ
max_section_reason_chars = 64

abbrev pub max_section_text_chars : ℕ
max_section_text_chars = 64

abbrev pub max_extension_chars : ℕ
max_extension_chars = 32

abbrev pub section_separator_chars : ℕ
section_separator_chars = 2

abbrev pub max_omitted_reason_chars : ℕ
max_omitted_reason_chars = 64

-- `u64::saturating_mul` by the percentage, then the cap.
unfoldable pub omitted_summary_reservation : ℕ → ℕ
omitted_summary_reservation global_max_chars =
    min (min (global_max_chars * omitted_reservation_fraction_percent) u64_max / 100)
      omitted_summary_reservation_cap

unfoldable pub max_omitted_row_chars : Text → ℕ
unfolding count_chars
max_omitted_row_chars relative_path =
    count_chars (codes "- ")
    + count_chars relative_path
    + count_chars (codes " | action=omit | reason=")
    + max_omitted_reason_chars
    + count_chars (codes " | input_chars=")
    + max_u64_digits
    + 1

-- The header and the catch-all row of the summary at twenty-digit counts, with the separator.
unfoldable pub omitted_summary_fixed_chars : ℕ
unfolding count_chars
omitted_summary_fixed_chars =
    count_chars (codes "## 省略文件摘要\n- 省略文件数: ")
    + max_u64_digits
    + count_chars (codes "\n")
    + (count_chars (codes "- 其他 | action=omit | count=")
        + max_u64_digits
        + count_chars (codes "\n"))
    + section_separator_chars

unfoldable pub key_value_line : Text → ℕ → ℕ
unfolding count_chars
key_value_line prefix value_chars = count_chars prefix + value_chars + 1

unfoldable pub heading_chars : ℕ → ℕ
unfolding count_chars
heading_chars path_chars = path_chars + count_chars (codes "### ") + 1

unfoldable pub success_section_max : ℕ → ℕ → ℕ
unfolding heading_chars key_value_line
success_section_max path_chars body_chars =
    heading_chars path_chars
    + key_value_line (codes "- action: ") max_section_text_chars
    + key_value_line (codes "- reason: ") max_section_reason_chars
    + key_value_line (codes "- parser_backend: ") max_section_text_chars
    + key_value_line (codes "- worker_lane: ") max_section_text_chars
    + key_value_line (codes "- input_chars: ") (max_u64_digits + 1)
    + key_value_line (codes "- output_chars: ") max_u64_digits
    + count_chars (codes "\n- 内容已按单文件预算或解析预算截断\n")
    + count_chars (codes "```text\n")
    + body_chars
    + count_chars (codes "\n```\n")
    + section_separator_chars

unfoldable pub metadata_section_max : ℕ → ℕ
unfolding heading_chars key_value_line
metadata_section_max path_chars =
    heading_chars path_chars
    + key_value_line (codes "- action: ") (count_chars (codes "metadata_only"))
    + key_value_line (codes "- reason: ") max_section_reason_chars
    + key_value_line (codes "- parser_backend: ") max_section_text_chars
    + key_value_line (codes "- worker_lane: ") max_section_text_chars
    + key_value_line (codes "- file_type: ") max_extension_chars
    + key_value_line (codes "- size_bytes: ") max_u64_digits
    + key_value_line (codes "- input_chars: ") (max_u64_digits + 1)
    + count_chars (codes "- body: omitted_by_metadata_only_policy\n")
    + section_separator_chars

unfoldable pub bounded_error_section_max : ℕ → ℕ
unfolding count_chars
bounded_error_section_max path_chars =
    count_chars (codes "- ")
    + path_chars
    + count_chars (codes " | reason=")
    + max_section_reason_chars
    + count_chars (codes " | error=")
    + max_section_text_chars
    + 1
    + section_separator_chars
