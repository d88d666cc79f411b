-- ===== src/Examples/Allocating.antt =====
-- Two files of one extension share a budget of forty characters.
use ai_daily_report.Prelude.{
  ℕ, ◌≤◌, ◌≡◌, refl, true, false, none, some, List, [], ◌∷◌, codes, length, sum_by, All, show,
}
use ai_daily_report.Prelude.Order.{text_cmp}
use ai_daily_report.Prelude.Sorting.{sort_by_key, sort_by, insert_by}
use ai_daily_report.Audit.Types.{ContentUnitKind, ContentUnit, ParsedContentAudit}
use ai_daily_report.Decision.Evidence.{ContextFileEvidence}
use ai_daily_report.Examples.Deciding.{note}
use ai_daily_report.Allocation.Pieces.{useful, unit_pieces, pieces}
use ai_daily_report.Allocation.Priority.{priority}
use ai_daily_report.Allocation.Bundles.{
  ends_before, bundle_piece, bundle_pieces, alternate, arrange, bundles,
}
use ai_daily_report.Allocation.Order.{add_to_group, group_files, interleave, file_order}
use ai_daily_report.Allocation.Rounds.{
  structural_context, useless_prefix, trim_block, take_block, visit, visit_all, round_order,
  allocate_rounds,
}
use ai_daily_report.Allocation.Excerpts.{
  AllocatedExcerpt, join_piece, join_pieces, excerpt_of, finish_rounds,
  allocate_excerpts_with_priority,
}
use ai_daily_report.Allocation.Terminates.{allocate_excerpts_with_priority_total}
use ai_daily_report.Allocation.Bounds.{unit_count, allocate_excerpts_with_priority_bounds}

abbrev content_unit : ContentUnitKind → ℕ → ℕ → ContentUnit
content_unit kind start end = record {
  unit_id = codes "u";
  kind = kind;
  text_start = start;
  text_end = end;
  ranges = [];
}

abbrev table_audit : ParsedContentAudit
table_audit = record {
  archive = none;
  version = 1;
  read_ranges = none;
  content_units = some (
      content_unit ContentUnitKind.heading 0 4
      ∷ content_unit ContentUnitKind.table_row 5 12
      ∷ content_unit ContentUnitKind.text 13 17
      ∷ []);
  usable_chars = some 11;
  encoding = none;
  detected_format = none;
}

abbrev table : ContextFileEvidence
table = record note {
  file_identity = codes "id-3";
  relative_path = codes "a.md";
  content = codes "Cost\nsum 120\nnext";
  evidence_audit = some table_audit;
}

abbrev excerpts : List AllocatedExcerpt
excerpts =
    record { text = codes "hello"; audit = none; ranges = none; truncated = false }
    ∷ record {
      text = codes "Cost\nsum 120";
      audit = some (record table_audit {
        content_units = some (
            record (content_unit ContentUnitKind.heading 0 4) { unit_id = codes "e1" }
            ∷ record (content_unit ContentUnitKind.table_row 5 12) { unit_id = codes "e2" }
            ∷ []);
        usable_chars = some 7;
      });
      ranges = some [];
      truncated = true;
    }
    ∷ []

-- In eighteen characters the last text of the table does not fit.
excerpts_eq :
    allocate_excerpts_with_priority (note ∷ table ∷ []) 18 (codes "a.md" ∷ []) ≡ some excerpts
unfolding allocate_excerpts_with_priority finish_rounds bundles pieces unit_pieces useful priority
    bundle_pieces bundle_piece ends_before arrange alternate sort_by_key sort_by insert_by text_cmp
    file_order group_files add_to_group interleave allocate_rounds round_order visit_all visit
    take_block trim_block structural_context useless_prefix excerpt_of join_pieces join_piece show
excerpts_eq = refl

allocate_excerpts_with_priority_total_example :
    (found : List AllocatedExcerpt) × (allocate_excerpts_with_priority
        (note ∷ table ∷ [])
        18
        (codes "a.md" ∷ [])
      ≡ some found)
    × (length found ≡ 2)
allocate_excerpts_with_priority_total_example =
    allocate_excerpts_with_priority_total (note ∷ table ∷ []) 18 (codes "a.md" ∷ [])

allocate_excerpts_with_priority_bounds_example :
    (sum_by (λ (x : AllocatedExcerpt). length x.text) excerpts ≤ 18)
    × All (λ (x : AllocatedExcerpt). unit_count x.audit ≤ 512) excerpts
allocate_excerpts_with_priority_bounds_example =
    allocate_excerpts_with_priority_bounds (note ∷ table ∷ []) 18 (codes "a.md" ∷ []) excerpts
      excerpts_eq
