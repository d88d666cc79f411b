-- ===== src/Allocation/Order.antt =====
-- rust/scanner_core/src/source_allocation.rs: the order in which the files of a round are visited.
-- The paths of the profile are sorted, so that a binary search finds exactly its members.
use ai_daily_report.Prelude.{
  ℕ, ◌+◌, max, Bool, none, some, List, [], ◌∷◌, ◌++◌, map, Text, length, is_empty, contains,
  get_elem?, ◌==◌, if◌then◌else◌, Ordering, zero, suc,
}
use ai_daily_report.Prelude.Order.{text_cmp, pair_cmp}
use ai_daily_report.Prelude.Sorting.{sort_by_key}
use ai_daily_report.Decision.Evidence.{ContextFileEvidence}
use ai_daily_report.Allocation.Pieces.{Piece, concat_map}

-- A file by its index, with its key within a group.
pub record Entry : Type 0 where
  pub index : ℕ
  pub relative_path : Text
  pub file_identity : Text

abbrev pub Group : Type 0
Group = Text × List Entry

-- `groups.entry(extension).or_default().push(index)` on a map that is ordered by extension.
unfoldable pub add_to_group : Text → Entry → List Group → List Group
unfolding text_cmp
add_to_group extension e [] = (extension, e ∷ []) ∷ []
add_to_group extension e (g ∷ groups) = elim (text_cmp extension g.0) [
  | Ordering.lt ↦ (extension, e ∷ []) ∷ g ∷ groups
  | Ordering.eq ↦ (g.0, g.1 ++ e ∷ []) ∷ groups
  | Ordering.gt ↦ g ∷ add_to_group extension e groups
]

-- The files that have blocks, by extension.
unfoldable pub group_files :
    ℕ → List ContextFileEvidence → List (List (List Piece)) → List Group → List Group
unfolding add_to_group
group_files index [] units groups = groups
group_files index (item ∷ items) [] groups = groups
group_files index (item ∷ items) (u ∷ units) groups = group_files (index + 1) items units (
    if is_empty u
    then groups
    else add_to_group item.extension
        (record {
          index = index;
          relative_path = item.relative_path;
          file_identity = item.file_identity;
        })
        groups)

abbrev sort_group : Group → List Entry
sort_group g =
    sort_by_key (pair_cmp text_cmp text_cmp) (λ (e : Entry). (e.relative_path, e.file_identity)) g.1

abbrev longest : List (List Entry) → ℕ
longest [] = 0
longest (g ∷ groups) = max (length g) (longest groups)

abbrev at_round : ℕ → List Entry → List ℕ
at_round round group = elim (get_elem? group round) [ none ↦ [] | some e ↦ e.index ∷ [] ]

-- One file of each group, then the second of each, and so on.
unfoldable pub interleave : List (List Entry) → ℕ → ℕ → List ℕ
interleave groups round zero = []
interleave groups round (suc rounds) =
    concat_map (at_round round) groups ++ interleave groups (round + 1) rounds

unfoldable pub file_order : List ContextFileEvidence → List (List (List Piece)) → List ℕ
unfolding group_files sort_by_key text_cmp interleave
file_order evidence units =
    let groups = map sort_group (group_files 0 evidence units []) in
    interleave groups 0 (longest groups)

-- `replace('\\', "/")`
abbrev forward_slashes : Text → Text
forward_slashes text = map (λ c. if c == b'\\' then b'/' else c) text

abbrev pub is_priority_file : List Text → ContextFileEvidence → Bool
is_priority_file priority_paths item = contains priority_paths (forward_slashes item.relative_path)
