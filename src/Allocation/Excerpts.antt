-- ===== src/Allocation/Excerpts.antt =====
-- rust/scanner_core/src/source_allocation.rs: `allocate_excerpts_with_priority`, its excerpts.
use ai_daily_report.Prelude.{
  ℕ, ◌+◌, ◌-◌, Bool, true, not, Option, none, some, List, [], ◌∷◌, ◌++◌, map, Text, codes, length,
  is_empty, any, sum_by, ltb, ◌||◌, show, if◌then◌else◌,
}
use ai_daily_report.Audit.Types.{SourceRange, ContentUnit, ParsedContentAudit}
use ai_daily_report.Audit.Builder.{same_range}
use ai_daily_report.Decision.Evidence.{ContextFileEvidence}
use ai_daily_report.Allocation.Pieces.{Piece, useful, audited_units}
use ai_daily_report.Allocation.Bundles.{bundles}
use ai_daily_report.Allocation.Order.{file_order, is_priority_file}
use ai_daily_report.Allocation.Rounds.{Slot, Allocation, allocate_rounds}

pub record AllocatedExcerpt : Type 0 where
  pub text : Text
  pub audit : Option ParsedContentAudit
  pub ranges : Option (List SourceRange)
  pub truncated : Bool

-- The variables of the loop over the selected pieces.
pub record Joined : Type 0 where
  pub text : Text
  pub chars : ℕ
  pub mapped : List ContentUnit
  pub ranges : List SourceRange
  pub usable : ℕ

abbrev pub new_joined : Joined
new_joined = record { text = []; chars = 0; mapped = []; ranges = []; usable = 0 }

abbrev add_ranges : List SourceRange → List SourceRange → List SourceRange
add_ranges ranges [] = ranges
add_ranges ranges (r ∷ rs) =
    add_ranges (if any (same_range r) ranges then ranges else ranges ++ r ∷ []) rs

abbrev separator : Text → Text
separator text = if is_empty text then [] else b'\n' ∷ []

unfoldable pub join_piece : Joined → Piece → Joined
unfolding useful show
join_piece j p =
    let start = j.chars + length (separator j.text) in
    let end = start + length p.text in
    record {
      text = j.text ++ separator j.text ++ p.text;
      chars = end;
      mapped =
          j.mapped
          ++ record {
            unit_id = codes "e" ++ show (length j.mapped + 1);
            kind = p.kind;
            text_start = start;
            text_end = end;
            ranges = p.ranges;
          }
            ∷ [];
      ranges = add_ranges j.ranges p.ranges;
      usable = if useful p.kind then j.usable + (end - start) else j.usable;
    }

unfoldable pub join_pieces : Joined → List Piece → Joined
unfolding join_piece
join_pieces j [] = j
join_pieces j (p ∷ ps) = join_pieces (join_piece j p) ps

abbrev audit_of : Option ParsedContentAudit → Joined → Option ParsedContentAudit
audit_of none j = none
audit_of (some audit) j = some (record audit {
  content_units = elim audit.content_units [ none ↦ none | some units ↦ some j.mapped ];
  usable_chars = some j.usable;
})

unfoldable pub excerpt_of : ContextFileEvidence → Slot → AllocatedExcerpt
unfolding join_pieces
excerpt_of item s =
    let j = join_pieces new_joined s.selected in
    record {
      text = j.text;
      audit = audit_of item.evidence_audit j;
      ranges = elim (audited_units item.evidence_audit) [
        | none ↦ none
        | some units ↦ some j.ranges
      ];
      truncated = not (is_empty s.left) || ltb (length j.text) (length item.content);
    }

abbrev pub excerpts_of : List ContextFileEvidence → List Slot → List AllocatedExcerpt
excerpts_of [] slots = []
excerpts_of (item ∷ items) [] = []
excerpts_of (item ∷ items) (s ∷ slots) = excerpt_of item s ∷ excerpts_of items slots

abbrev pub new_slot : List (List Piece) → Slot
new_slot units = record { left = units; selected = []; size = 0 }

abbrev pub blocks_left : List Slot → ℕ
blocks_left = sum_by (λ (s : Slot). length s.left)

-- The state after the rounds. The fuel is one round for each block and two more.
unfoldable pub finish_rounds : List ContextFileEvidence → ℕ → List Text → Option Allocation
unfolding bundles file_order allocate_rounds
finish_rounds evidence budget priority_paths =
    let units = map bundles evidence in
    let slots = map new_slot units in
    let marks = map (is_priority_file priority_paths) evidence in
    allocate_rounds (blocks_left slots + 2) (file_order evidence units) marks true
      (any (λ m. m) marks) (record { slots = slots; remaining = budget })

abbrev pub collect : List ContextFileEvidence → Option Allocation → Option (List AllocatedExcerpt)
collect evidence none = none
collect evidence (some a) = some (excerpts_of evidence a.slots)

unfoldable pub allocate_excerpts_with_priority :
    List ContextFileEvidence → ℕ → List Text → Option (List AllocatedExcerpt)
unfolding finish_rounds excerpt_of
allocate_excerpts_with_priority evidence budget priority_paths =
    collect evidence (finish_rounds evidence budget priority_paths)

unfoldable pub allocate_excerpts : List ContextFileEvidence → ℕ → Option (List AllocatedExcerpt)
unfolding allocate_excerpts_with_priority
allocate_excerpts evidence budget = allocate_excerpts_with_priority evidence budget []
