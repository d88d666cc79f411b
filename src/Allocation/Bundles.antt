-- ===== src/Allocation/Bundles.antt =====
-- rust/scanner_core/src/source_allocation.rs: `bundles`, the blocks of a file in their order.
use ai_daily_report.Prelude.{
  ℕ, ◌+◌, min, Bool, true, false, not, List, [], ◌∷◌, ◌++◌, map, length, is_empty, sum_by, leb, ltb,
  ◌&&◌, ◌||◌, ◌==◌, if◌then◌else◌, compare,
}
use ai_daily_report.Prelude.Order.{pair_cmp}
use ai_daily_report.Prelude.Sorting.{sort_by_key}
use ai_daily_report.Audit.Types.{ContentUnitKind}
use ai_daily_report.Decision.Evidence.{ContextFileEvidence}
use ai_daily_report.Allocation.Pieces.{Piece, useful, pieces, round_target, first_target, filter}
use ai_daily_report.Allocation.Priority.{priority}

abbrev pub is_heading : ContentUnitKind → Bool
is_heading ContentUnitKind.heading = true
is_heading _ = false

abbrev pub is_placeholder : ContentUnitKind → Bool
is_placeholder ContentUnitKind.placeholder = true
is_placeholder _ = false

pub record Block : Type 0 where
  pub rank : ℕ
  pub position : ℕ
  pub content : List Piece

-- The variables of the loop over the pieces.
pub record Bundling : Type 0 where
  pub blocks : List Block
  pub context : List Piece
  pub current : List Piece
  pub size : ℕ
  pub section_first : Bool
  pub current_first : Bool
  pub has_useful : Bool

abbrev pub new_bundling : Bundling
new_bundling = record {
  blocks = [];
  context = [];
  current = [];
  size = 0;
  section_first = true;
  current_first = true;
  has_useful = false;
}

abbrev separator_of : List Piece → ℕ
separator_of current = if is_empty current then 0 else 1

abbrev add_block : Bundling → List Block
add_block s =
    let rank = priority s.current in
    s.blocks
    ++ record {
      rank = if s.current_first then min rank 3 else rank;
      position = length s.blocks;
      content = s.current;
    }
      ∷ []

-- The current block ends before this piece.
unfoldable pub ends_before : Bundling → Piece → Bool
unfolding priority useful
ends_before s p =
    let target = if is_empty s.blocks then first_target else round_target in
    let current_rank = priority s.current in
    let incoming_rank =
      if useful p.kind then priority (s.context ++ p ∷ []) else priority (p ∷ []) in
    let changes_priority =
      useful p.kind
      && not (current_rank == incoming_rank)
      && (leb current_rank 2 || leb incoming_rank 2) in
    s.has_useful
    && (is_heading p.kind
        || ltb target (s.size + (length p.text + separator_of s.current))
        || changes_priority)

abbrev flush : Bundling → Bundling
flush s = record s { blocks = add_block s; current = []; size = 0; has_useful = false }

abbrev note_context : Bundling → Piece → Bundling
note_context s p =
    let opened = if is_heading p.kind then record s { context = []; section_first = true } else s in
    if not (useful p.kind) && not (is_placeholder p.kind)
    then record opened { context = opened.context ++ p ∷ [] }
    else opened

abbrev append_piece : Bundling → Piece → Bundling
append_piece s p = record s {
  size = s.size + (length p.text + separator_of s.current);
  has_useful = s.has_useful || useful p.kind;
  section_first = if useful p.kind then false else s.section_first;
  current = s.current ++ p ∷ [];
}

-- A new block takes its context first; a context above the target drops the piece.
abbrev open_block : Bundling → Piece → Bundling
open_block s p =
    let opened = record s { current_first = s.section_first } in
    let context_chars = sum_by (λ (q : Piece). length q.text + 1) s.context in
    if not (useful p.kind)
    then append_piece opened p
    else if leb context_chars round_target
    then append_piece (record opened { current = s.context; size = context_chars }) p
    else opened

unfoldable pub bundle_piece : Bundling → Piece → Bundling
unfolding ends_before useful priority
bundle_piece s p =
    let noted = note_context (if ends_before s p then flush s else s) p in
    if is_empty noted.current then open_block noted p else append_piece noted p

unfoldable pub bundle_pieces : Bundling → List Piece → Bundling
unfolding bundle_piece
bundle_pieces s [] = s
bundle_pieces s (p ∷ ps) = bundle_pieces (bundle_piece s p) ps

-- One quantitative block, then one qualification, while there are any.
unfoldable pub alternate {ℓ} : {A : Type ℓ} → List A → List A → List A
alternate [] ys = ys
alternate (x ∷ xs) [] = x ∷ xs
alternate (x ∷ xs) (y ∷ ys) = x ∷ y ∷ alternate xs ys

-- The first block stays first; the others go by rank.
unfoldable pub arrange : List Block → List Block
unfolding alternate sort_by_key
arrange [] = []
arrange (first ∷ others) =
    let remaining =
      sort_by_key (pair_cmp compare compare) (λ (b : Block). (b.rank, b.position)) others in
    first ∷ filter (λ (b : Block). b.rank == 0) remaining
    ++ alternate (filter (λ (b : Block). b.rank == 1) remaining)
        (filter (λ (b : Block). b.rank == 2) remaining)
    ++ filter (λ (b : Block). ltb 2 b.rank) remaining

unfoldable pub bundles : ContextFileEvidence → List (List Piece)
unfolding pieces bundle_pieces arrange priority
bundles item =
    let s = bundle_pieces new_bundling (pieces item) in
    map (λ (b : Block). b.content) (arrange (if s.has_useful then add_block s else s.blocks))
