-- ===== src/Examples/Omitting.antt =====
-- The summary of three omitted files.
use ai_daily_report.Prelude.{
  err, if◌then◌else◌, ℕ, ◌+◌, ◌≤◌, ◌≡◌, refl, true, false, List, [], ◌∷◌, Text, codes, length,
  sum_by, ok, arith,
}
use ai_daily_report.Prelude.Order.{text_cmp}
use ai_daily_report.Rendering.Sections.{format}
use ai_daily_report.Rendering.Summary.{
  budget_model_mismatch, OmittedRow, GroupKey, summary_section, summary_text, checked_section,
  header_used, header_lines, detail_rows, groups_of, aggregate, other_rows, join_lines, group_line,
  bump,
}
use ai_daily_report.Budget.Sections.{
  omitted_summary_fixed_chars, max_omitted_row_chars, count_chars,
}
use ai_daily_report.Rendering.Details.{price, detail_rows-price}
use ai_daily_report.Rendering.Totals.{summary_section_lem, catch_all}

abbrev omitted_row : Text → Text → OmittedRow
omitted_row path extension = record {
  relative_path = path;
  extension = extension;
  reason = codes "quota";
  input_chars = 12;
  in_detail_slot = false;
}

abbrev rows : List OmittedRow
rows =
    record (omitted_row (codes "b.md") (codes ".md")) { in_detail_slot = true }
    ∷ omitted_row (codes "c.pdf") (codes ".pdf")
    ∷ omitted_row (codes "a.md") (codes ".md")
    ∷ []

-- The second group has no room of its own and is counted in the last row.
abbrev three_omitted : Text
three_omitted =
    codes
      "## 省略文件摘要\n- 省略文件数: 3\n- b.md | action=omit | reason=quota | input_chars=~12\n- quota | .md | action=omit | count=2\n- 其他 | action=omit | count=1"

three_omitted_eq : summary_section 145 rows ≡ ok three_omitted
unfolding summary_section summary_text checked_section header_used header_lines detail_rows
    groups_of aggregate other_rows join_lines group_line bump format text_cmp
three_omitted_eq = refl

summary_section_lem_example :
    (details : List Text) × (shown : List (GroupKey × ℕ)) × (other : ℕ) × (three_omitted
      ≡ summary_text 3 details shown (catch_all other))
    × (sum_by (λ g. g.1) shown + other ≡ 3)
    × (length three_omitted ≤ 145)
summary_section_lem_example =
    summary_section_lem 145 rows three_omitted (omega arith) three_omitted_eq

-- In 120 characters the second group fits neither its own row nor the last one, although they hold
-- the fixed part, which counts a catch-all row.
no_catch_all :
    summary_section 120 rows
    ≡ err (budget_model_mismatch (codes "mandatory omitted catch-all exceeds its reservation"))
unfolding summary_section checked_section header_used header_lines detail_rows groups_of aggregate
    other_rows join_lines group_line bump format text_cmp
no_catch_all = refl

fixed_chars : omitted_summary_fixed_chars ≤ 120
unfolding omitted_summary_fixed_chars count_chars
fixed_chars = omega arith

detail_rows-price_example :
    (r : List Text × ℕ) × (detail_rows 300 40 rows ≡ ok r)
    × (length r.0 ≡ sum_by (λ row. if row.in_detail_slot then 1 else 0) rows)
    × (r.1 ≤ 40 + sum_by price rows)
unfolding max_omitted_row_chars count_chars
detail_rows-price_example =
    detail_rows-price 300 40 rows (omega arith) (omega arith)
      (omega arith, (omega arith, (omega arith, tt)))
