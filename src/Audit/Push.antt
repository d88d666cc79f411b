-- ===== src/Audit/Push.antt =====
-- What one call of `push` does to the text and its units.
use ai_daily_report.Prelude.{◌≤◌, ◌≡◌, Bool, true, [], ◌∷◌, ◌++◌, Text, length, take, drop}
use ai_daily_report.Audit.Types.{ContentUnit}
use ai_daily_report.Audit.Validate.{flatten_option}
use ai_daily_report.Audit.Builder.{AuditTextBuilder}

-- A kept text: its unit is the last one, starts where the text does and ends with the content.
pub record IsKept (b : AuditTextBuilder) (text : Text) (r : Bool × AuditTextBuilder) : Type 0 where
  pub result : r.0 ≡ true
  pub unit : ContentUnit
  pub units :
      flatten_option r.1.audit.content_units ≡ flatten_option b.audit.content_units ++ unit ∷ []
  pub span : drop unit.text_start r.1.content ≡ text
  pub before : take (length b.content) r.1.content ≡ b.content
  pub end : (unit.text_end ≡ length r.1.content) × (r.1.chars ≡ length r.1.content)
  pub fits : length r.1.content ≤ b.max_chars
