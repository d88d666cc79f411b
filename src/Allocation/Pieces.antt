-- ===== src/Allocation/Pieces.antt =====
-- rust/scanner_core/src/source_allocation.rs: the pieces of a file, `useful` and `pieces`. Positions
-- are `u64`s of texts in memory, and a range that ends before it starts has length 0.
use ai_daily_report.Prelude.{
  ℕ, ◌+◌, ◌-◌, Bool, true, false, not, Option, none, some, List, [], ◌∷◌, ◌++◌, map, Text, codes,
  length, is_empty, take, drop, leb, ltb, ◌&&◌, ◌||◌, ◌==◌, if◌then◌else◌,
}
use ai_daily_report.Audit.Types.{
  SourceRangeUnit, SourceRange, ContentUnitKind, ContentUnit, ParsedContentAudit,
}
use ai_daily_report.Decision.Evidence.{ContextFileEvidence}

abbrev pub round_target : ℕ
round_target = 512

abbrev pub first_target : ℕ
first_target = 256

pub record Piece : Type 0 where
  pub text : Text
  pub kind : ContentUnitKind
  pub ranges : List SourceRange

unfoldable pub useful : ContentUnitKind → Bool
useful ContentUnitKind.heading = false
useful ContentUnitKind.table_header = false
useful ContentUnitKind.unit = false
useful ContentUnitKind.placeholder = false
useful _ = true

-- The rows that stay whole.
abbrev pub is_atomic : ContentUnitKind → Bool
is_atomic ContentUnitKind.table_row = true
is_atomic ContentUnitKind.total = true
is_atomic _ = false

abbrev is_text_char : SourceRangeUnit → Bool
is_text_char SourceRangeUnit.text_char = true
is_text_char _ = false

-- A line feed or the end of a Chinese sentence.
abbrev is_sentence_end : ℕ → Bool
is_sentence_end c = c == 10 || c == 12290 || c == 65281 || c == 65311

-- A range of the whole unit becomes that of the part.
abbrev narrow : ContentUnit → ℕ → ℕ → SourceRange → SourceRange
narrow unit char_from char_to r =
    if is_text_char r.unit && (r.end - r.start == unit.text_end - unit.text_start)
    then record r { start = r.start + char_from; end = r.start + char_to }
    else r

-- The loop over the characters: the part that is read so far, and where it starts and ends.
unfoldable pub split_text : ContentUnit → Text → Text → ℕ → ℕ → List Piece
split_text unit [] part char_from char_to =
    if is_empty part
    then []
    else record { text = part; kind = unit.kind; ranges = unit.ranges } ∷ []
split_text unit (c ∷ text) part char_from char_to =
    let ends = is_sentence_end c in
    let rest =
      split_text unit text (if ends then [] else part ++ c ∷ [])
        (if ends then char_to + 1 else char_from) (char_to + 1) in
    if ends
    then record {
      text = part ++ c ∷ [];
      kind = unit.kind;
      ranges = map (narrow unit char_from (char_to + 1)) unit.ranges;
    }
      ∷ rest
    else rest

unfoldable pub unit_pieces : Text → ContentUnit → List Piece
unfolding split_text useful
unit_pieces chars unit =
    if ltb (length chars) unit.text_end || leb unit.text_end unit.text_start
    then []
    else let text = take (unit.text_end - unit.text_start) (drop unit.text_start chars) in
      if ltb round_target (length text) && useful unit.kind && not (is_atomic unit.kind)
      then split_text unit text [] 0 0
      else record { text = text; kind = unit.kind; ranges = unit.ranges } ∷ []

-- The units of the audit, or the whole text as one.
abbrev whole_text : Text → List ContentUnit
whole_text [] = []
whole_text (c ∷ chars) =
    record {
      unit_id = codes "unknown";
      kind = ContentUnitKind.text;
      text_start = 0;
      text_end = length (c ∷ chars);
      ranges = [];
    }
    ∷ []

abbrev pub audited_units : Option ParsedContentAudit → Option (List ContentUnit)
audited_units none = none
audited_units (some audit) = audit.content_units

abbrev units_of : ContextFileEvidence → List ContentUnit
units_of item = elim (audited_units item.evidence_audit) [
  | none ↦ whole_text item.content
  | some units ↦ units
]

abbrev is_zero : Option ℕ → Bool
is_zero none = false
is_zero (some n) = n == 0

abbrev has_no_usable : Option ParsedContentAudit → Bool
has_no_usable none = false
has_no_usable (some audit) = is_zero audit.usable_chars

abbrev is_offered : Piece → Bool
is_offered p = leb (length p.text) round_target || not (useful p.kind) || is_atomic p.kind

abbrev pub filter {ℓ} : {A : Type ℓ} → (A → Bool) → List A → List A
filter p [] = []
filter p (x ∷ xs) = let rest = filter p xs in if p x then x ∷ rest else rest

abbrev pub concat_map {ℓ κ} : {A : Type ℓ} {B : Type κ} → (A → List B) → List A → List B
concat_map f [] = []
concat_map f (x ∷ xs) = f x ++ concat_map f xs

unfoldable pub pieces : ContextFileEvidence → List Piece
unfolding unit_pieces useful
pieces item =
    if has_no_usable item.evidence_audit
    then []
    else filter is_offered (concat_map (unit_pieces item.content) (units_of item))
