-- ===== src/Examples/Building.antt =====
-- The audit builder at a small input.
use ai_daily_report.Prelude.{ℕ, ◌≡◌, refl, some, List, [], ◌∷◌, Text, codes, All, ok, arith}
use ai_daily_report.Nominal.{trim_matches}
use ai_daily_report.Audit.Types.{SourceRangeUnit, SourceRange, ContentUnitKind, ParsedContentAudit}
use ai_daily_report.Audit.Validate.{validate_audit, validate_range}
use ai_daily_report.Audit.Builder.{new_builder, push, read, finish}
use ai_daily_report.Audit.Runs.{Call, read_call, push_call, IsCall, call_all, finish-validate_audit}

abbrev lengths : ParsedContentAudit → ℕ
lengths a = 400

-- Trims newlines only.
abbrev trim : Text → Text
trim = trim_matches b'\n'

abbrev row : SourceRange
row = record {
  unit = SourceRangeUnit.sheet_row;
  start = 1;
  end = 3;
  label = some (codes "Sheet1");
  column_start = some 1;
  column_end = some 4;
}

abbrev calls : List Call
calls =
    read_call row
    ∷ push_call (codes "Costs\n") ContentUnitKind.heading []
    ∷ push_call (codes "rent 12") ContentUnitKind.table_row (row ∷ [])
    ∷ push_call (codes "too long for it") ContentUnitKind.text []
    ∷ []

built_text :
    (finish (call_all lengths trim (new_builder 20 (codes "xlsx")) calls)).0
    ≡ codes "Costs\nrent 12"
unfolding finish push read new_builder trim_matches
built_text = refl

calls_valid : All IsCall calls
unfolding validate_range
calls_valid = (refl, ((omega arith, refl), ((omega arith, refl), ((omega arith, refl), tt))))

finish-validate_audit_example :
    validate_audit lengths
      (finish (call_all lengths trim (new_builder 20 (codes "xlsx")) calls)).1
      (finish (call_all lengths trim (new_builder 20 (codes "xlsx")) calls)).0
    ≡ ok tt
finish-validate_audit_example =
    finish-validate_audit lengths trim 20 (codes "xlsx") calls refl calls_valid (omega arith)
