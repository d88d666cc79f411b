-- ===== src/Examples/Excerpts.antt =====
-- Excerpts and content audits at small inputs.
use ai_daily_report.Prelude.{
  ◌⊎◌, ℕ, ◌≤◌, ◌≡◌, refl, none, some, [], ◌∷◌, ◌++◌, Text, codes, length, ok, arith,
}
use ai_daily_report.Rendering.Excerpt.{
  omitted_marker, head_budget, tail_budget, take_head_and_tail, head_end, tail_start,
  newline_boundary_at_or_before, newline_boundary_at_or_after, last_newline, first_newline,
}
use ai_daily_report.Rendering.Cuts.{take_head_and_tail_lem, length-take_head_and_tail}
use ai_daily_report.Audit.Types.{SourceRangeUnit, ContentUnitKind, ContentUnit, ParsedContentAudit}
use ai_daily_report.Audit.Validate.{validate_audit, flatten_option, InOrder, validate_audit-InOrder}

abbrev note : Text
note =
    codes
      "one\ntwo\nthree\nfour\nfive\nsix\nseven\neight\nnine\nten\neleven\ntwelve\nthirteen\nfourteen\nfifteen\nsixteen\nseventeen\n"

note_excerpt :
    take_head_and_tail note 80 ≡ codes "one\n" ++ (omitted_marker (codes "中部") 103 ++ codes "")
unfolding take_head_and_tail head_end tail_start newline_boundary_at_or_before
    newline_boundary_at_or_after last_newline first_newline
note_excerpt = refl

take_head_and_tail_lem_example :
    (head : Text) × (gap : Text) × (tail : Text) × (note ≡ head ++ (gap ++ tail))
    × (take_head_and_tail note 80 ≡ head ++ (omitted_marker (codes "中部") (length gap) ++ tail))
    × (length head ≤ head_budget 80)
    × (length tail ≤ tail_budget 80)
take_head_and_tail_lem_example = take_head_and_tail_lem note 80 (omega arith) (omega arith)

length-take_head_and_tail_example : length (take_head_and_tail note 80) ≤ 80
length-take_head_and_tail_example = length-take_head_and_tail note 80 (omega arith)

abbrev unit : Text → ℕ → ℕ → ContentUnit
unit name start end = record {
  unit_id = name;
  kind = ContentUnitKind.paragraph;
  text_start = start;
  text_end = end;
  ranges =
      record {
        unit = SourceRangeUnit.text_char;
        start = start;
        end = end;
        label = none;
        column_start = none;
        column_end = none;
      }
      ∷ [];
}

abbrev audit : ParsedContentAudit
audit = record {
  archive = none;
  version = 1;
  read_ranges = none;
  content_units = some (unit (codes "u1") 0 3 ∷ unit (codes "u2") 4 7 ∷ []);
  usable_chars = some 100;
  encoding = some (codes "utf-8");
  detected_format = none;
}

audit_valid : validate_audit (λ a. 400) audit note ≡ ok tt
unfolding validate_audit
audit_valid = refl

validate_audit-InOrder_example :
    (audit.archive ≡ none)
    × ((audit.usable_chars ≡ none) ⊎ ((n : ℕ) × (audit.usable_chars ≡ some n) × (n ≤ length note)))
    × InOrder 0 (length note) (flatten_option audit.content_units)
validate_audit-InOrder_example = validate_audit-InOrder (λ a. 400) audit note audit_valid
