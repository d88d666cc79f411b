-- ===== src/Audit/Validate.antt =====
-- rust/worker_contract/src/content_audit.rs: `SourceRange::validate` and
-- `ParsedContentAudit::validate`. The length of an audit's JSON encoding, which serde_json computes,
-- is a parameter.
use ai_daily_report.Prelude.{
  ℕ, ◌*◌, ◌≡◌, arith, ◌≤◌, ◌⊎◌, inl, inr, Option-cases, ◌<◌, Bool, true, false, not, Option, none,
  some, List, [], ◌∷◌, Text, codes, length, leb, ltb, is_empty, ◌&&◌, ◌||◌, ◌==◌, contains, ok,
  ensure, ◌>>◌,
}
use ai_daily_report.Contract.Checks.{Check, check_each}
use ai_daily_report.Audit.Types.{SourceRangeUnit, SourceRange, ContentUnit, ParsedContentAudit}

abbrev counts_from_zero : SourceRangeUnit → Bool
counts_from_zero SourceRangeUnit.text_char = true
counts_from_zero SourceRangeUnit.byte = true
counts_from_zero _ = false

abbrev has_columns : SourceRangeUnit → Bool
has_columns SourceRangeUnit.sheet_row = true
has_columns SourceRangeUnit.table_row = true
has_columns _ = false

-- `Option::is_some_and`
abbrev pub is_some_and {ℓ} : {A : Type ℓ} → Option A → (A → Bool) → Bool
is_some_and none test = false
is_some_and (some a) test = test a

abbrev columns_valid : SourceRangeUnit → Option ℕ → Option ℕ → Bool
columns_valid unit none none = true
columns_valid unit (some start) (some end) = ltb 0 start && ltb start end && has_columns unit
columns_valid unit _ _ = false

unfoldable pub validate_range : SourceRange → Check
validate_range r = do
  ensure
      (not (
        leb r.end r.start
        || (not (counts_from_zero r.unit) && r.start == 0)
        || is_some_and r.label (λ label. ltb 512 (length label))))
      (codes "source range is invalid")
  ensure (columns_valid r.unit r.column_start r.column_end) (codes "source column range is invalid")

abbrev pub flatten_option {ℓ} : {A : Type ℓ} → Option (List A) → List A
flatten_option none = []
flatten_option (some xs) = xs

abbrev encodings : List Text
encodings = codes "utf-8" ∷ codes "utf-8-sig" ∷ codes "gb18030" ∷ []

abbrev pub formats : List Text
formats =
    codes "xls"
    ∷ codes "xlsx"
    ∷ codes "doc"
    ∷ codes "docx"
    ∷ codes "ppt"
    ∷ codes "pptx"
    ∷ codes "pdf"
    ∷ codes "text"
    ∷ codes "csv"
    ∷ []

-- The loop over content units, with the identities seen and the end of the unit before.
unfoldable pub validate_units : ℕ → List Text → ℕ → List ContentUnit → Check
unfolding validate_range
validate_units text_chars identities previous_end [] = ok tt
validate_units text_chars identities previous_end (unit ∷ units) = do
  ensure
      (not (
        is_empty unit.unit_id
        || ltb 128 (length unit.unit_id)
        || contains identities unit.unit_id
        || leb unit.text_end unit.text_start
        || ltb text_chars unit.text_end
        || ltb 128 (length unit.ranges)
        || ltb unit.text_start previous_end))
      (codes "parser content unit is invalid")
  check_each validate_range unit.ranges
  validate_units text_chars (unit.unit_id ∷ identities) unit.text_end units

unfoldable pub validate_audit : (ParsedContentAudit → ℕ) → ParsedContentAudit → Text → Check
unfolding validate_range validate_units
validate_audit encoded_len audit content = do
  ensure (not (is_some_and audit.archive (λ _. true)))
      (codes "archive artifacts require the archive operation")
  ensure
      (not (
        not (audit.version == 1)
        || is_some_and audit.usable_chars (λ chars. ltb (length content) chars)
        || is_some_and audit.read_ranges (λ ranges. ltb 10000 (length ranges))
        || is_some_and audit.content_units (λ units. ltb 10000 (length units))
        || is_some_and audit.encoding (λ encoding. not (contains encodings encoding))
        || is_some_and audit.detected_format (λ format. not (contains formats format))))
      (codes "parser audit fields are invalid")
  check_each validate_range (flatten_option audit.read_ranges)
  validate_units (length content) [] 0 (flatten_option audit.content_units)
  ensure (leb (encoded_len audit) (256 * 1024)) (codes "parser audit exceeds metadata byte budget")

-- The units lie in the text, one behind the other.
abbrev pub InOrder : ℕ → ℕ → List ContentUnit → Type 0
InOrder from chars [] = Unit
InOrder from chars (u ∷ us) =
    (from ≤ u.text_start)
    × (u.text_start < u.text_end)
    × (u.text_end ≤ chars)
    × InOrder u.text_end chars us

validate_units-InOrder :
    (chars : ℕ) (seen : List Text) (from : ℕ) (us : List ContentUnit)
    → validate_units chars seen from us ≡ ok tt
    → InOrder from chars us
unfolding validate_units
validate_units-InOrder chars seen from [] h = tt
validate_units-InOrder chars seen from (u ∷ us) h =
    ground (arith, validate_units-InOrder chars (u.unit_id ∷ seen) u.text_end us)

-- An audit that passes validation against a text has no archive artifact, counts at most the
-- characters of the text as usable, and its content units are non-empty, disjoint, in order and
-- inside the text.
pub validate_audit-InOrder :
    (encoded_len : ParsedContentAudit → ℕ) (audit : ParsedContentAudit) (content : Text)
    → validate_audit encoded_len audit content ≡ ok tt
    → (audit.archive ≡ none)
      × ((audit.usable_chars ≡ none)
          ⊎ ((n : ℕ) × (audit.usable_chars ≡ some n) × (n ≤ length content)))
      × InOrder 0 (length content) (flatten_option audit.content_units)
unfolding validate_audit
validate_audit-InOrder encoded_len audit content h = (
  ground arith,
  elim (Option-cases audit.usable_chars) [ inl e ↦ inl e | inr (n, e) ↦ inr (n, e, ground arith) ],
  validate_units-InOrder (length content) [] 0 (flatten_option audit.content_units) (ground arith),
)
