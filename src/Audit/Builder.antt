-- ===== src/Audit/Builder.antt =====
-- rust/worker_contract/src/content_audit.rs: `AuditTextBuilder` without an archive. `str::trim` and
-- the length of the audit's JSON encoding are parameters.
use ai_daily_report.Prelude.{
  ℕ, ◌+◌, Bool, true, false, Option, none, some, List, [], ◌∷◌, ◌++◌, Text, codes, length, any, leb,
  ltb, is_empty, ◌&&◌, ◌||◌, ◌==◌, text_eq, show, if◌then◌else◌,
}
use ai_daily_report.Audit.Types.{
  SourceRangeUnit, SourceRangeUnit-discrete, SourceRange, ContentUnitKind, ContentUnit,
  ParsedContentAudit,
}
use ai_daily_report.Audit.Validate.{flatten_option}

pub record AuditTextBuilder : Type 0 where
  pub content : Text
  pub chars : ℕ
  pub max_chars : ℕ
  pub audit : ParsedContentAudit
  pub truncated : Bool

-- `AuditTextBuilder::new`
unfoldable pub new_builder : ℕ → Text → AuditTextBuilder
new_builder max_chars format = record {
  content = [];
  chars = 0;
  max_chars = max_chars;
  audit = record {
    archive = none;
    version = 1;
    read_ranges = some [];
    content_units = some [];
    usable_chars = some 0;
    encoding = none;
    detected_format = some format;
  };
  truncated = false;
}

abbrev same_unit : SourceRangeUnit → SourceRangeUnit → Bool
same_unit a b = elim (SourceRangeUnit-discrete a b) [ yes e ↦ true | no ne ↦ false ]

abbrev same_label : Option Text → Option Text → Bool
same_label none none = true
same_label (some a) (some b) = text_eq a b
same_label _ _ = false

abbrev same_column : Option ℕ → Option ℕ → Bool
same_column none none = true
same_column (some a) (some b) = a == b
same_column _ _ = false

-- The derived equality of source ranges.
abbrev pub same_range : SourceRange → SourceRange → Bool
same_range a b =
    same_unit a.unit b.unit
    && a.start == b.start
    && a.end == b.end
    && same_label a.label b.label
    && same_column a.column_start b.column_start
    && same_column a.column_end b.column_end

-- Whether a unit of this kind counts as usable text.
unfoldable pub is_usable : ContentUnitKind → Bool
is_usable ContentUnitKind.heading = false
is_usable ContentUnitKind.table_header = false
is_usable ContentUnitKind.unit = false
is_usable ContentUnitKind.placeholder = false
is_usable _ = true

abbrev pub metadata_budget : ℕ
metadata_budget = 262144

abbrev pub number_of : Option ℕ → ℕ
number_of none = 0
number_of (some n) = n

abbrev pub separator : Text → Text
separator content = if is_empty content then [] else codes "\n"

-- The unit of a text that is pushed.
unfoldable pub next_unit :
    AuditTextBuilder → Text → ContentUnitKind → List SourceRange → ContentUnit
unfolding show
next_unit b text kind ranges =
    let start = b.chars + length (separator b.content) in
    record {
      unit_id = codes "u" ++ show (length (flatten_option b.audit.content_units) + 1);
      kind = kind;
      text_start = start;
      text_end = start + length text;
      ranges = ranges;
    }

unfoldable pub push_unit : ParsedContentAudit → ContentUnit → ParsedContentAudit
push_unit audit unit = record audit {
  content_units = some (flatten_option audit.content_units ++ unit ∷ []);
}

-- The builder once the unit is kept.
unfoldable pub grow : AuditTextBuilder → Text → ContentUnit → AuditTextBuilder
unfolding push_unit is_usable
grow b text unit = record b {
  content = b.content ++ (separator b.content ++ text);
  chars = unit.text_end;
  audit = record (push_unit b.audit unit) {
    usable_chars = some (
        if is_usable unit.kind
        then number_of b.audit.usable_chars + length text
        else number_of b.audit.usable_chars);
  };
}

module _ (encoded_len : ParsedContentAudit → ℕ) where
  -- The last test of `read`.
  abbrev pub within_budget : ParsedContentAudit → ParsedContentAudit
  within_budget audit =
      if ltb metadata_budget (encoded_len audit) then record audit { read_ranges = none } else audit

  abbrev pub add_range : List SourceRange → SourceRange → Option (List SourceRange)
  add_range ranges range =
      if ltb (length ranges) 512 && (if any (same_range range) ranges then false else true)
      then some (ranges ++ range ∷ [])
      else if any (same_range range) ranges
      then some ranges
      else none

  abbrev pub read_into :
      Option (List SourceRange) → ParsedContentAudit → SourceRange → ParsedContentAudit
  read_into none audit range = audit
  read_into (some ranges) audit range =
      within_budget (record audit { read_ranges = add_range ranges range })

  -- `AuditTextBuilder::read`
  unfoldable pub read : AuditTextBuilder → SourceRange → AuditTextBuilder
  read b range = record b { audit = read_into b.audit.read_ranges b.audit range }

  -- Behind the archive's branch, `push` of a trimmed text, with the result of the call. The `unwrap`s
  -- of the source meet a list and a number: `new` sets both and no operation clears them.
  unfoldable pub push_trimmed :
      AuditTextBuilder → Text → ContentUnitKind → List SourceRange → Bool × AuditTextBuilder
  unfolding next_unit push_unit grow
  push_trimmed b text kind ranges =
      let unit = next_unit b text kind ranges in
      let units = flatten_option b.audit.content_units in
      if is_empty text
      then (true, b)
      else if ltb b.max_chars (b.chars + length (separator b.content) + length text)
          || leb 512 (length units)
      then (false, record b { truncated = true })
      else if ltb metadata_budget (encoded_len (push_unit b.audit unit))
      then (false, record b { truncated = true })
      else (true, grow b text unit)

  -- `AuditTextBuilder::push`
  unfoldable pub push :
      (Text → Text)
      → AuditTextBuilder
      → Text
      → ContentUnitKind
      → List SourceRange
      → Bool × AuditTextBuilder
  unfolding push_trimmed
  push trim b text kind ranges = push_trimmed b (trim text) kind ranges

-- `usable_chars == Some(0)`
abbrev pub is_unusable : Option ℕ → Bool
is_unusable none = false
is_unusable (some n) = n == 0

-- Whether or not there is usable text.
abbrev pub finish_if : Bool → AuditTextBuilder → Text × ParsedContentAudit × Bool
finish_if true b = ([], record b.audit { content_units = some [] }, b.truncated)
finish_if false b = (b.content, b.audit, b.truncated)

-- `AuditTextBuilder::finish`
unfoldable pub finish : AuditTextBuilder → Text × ParsedContentAudit × Bool
finish b = finish_if (is_unusable b.audit.usable_chars) b
