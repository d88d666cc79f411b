-- ===== src/Allocation/Rounds.antt =====
-- rust/scanner_core/src/source_allocation.rs: the rounds of `allocate_excerpts_with_priority`. The
-- vectors `units` from `positions` on, `selected` and `sizes` are one list of slots.
use ai_daily_report.Prelude.{
  ℕ, zero, suc, ◌+◌, ◌-◌, Bool, true, false, not, Option, none, some, List, [], ◌∷◌, ◌++◌, length,
  take, drop, get_elem?, any, sum_by, leb, ◌&&◌, ◌||◌, ◌==◌, text_eq, if◌then◌else◌, compare,
}
use ai_daily_report.Prelude.Sorting.{sort_by_key}
use ai_daily_report.Audit.Types.{SourceRange, ContentUnitKind}
use ai_daily_report.Audit.Builder.{same_range}
use ai_daily_report.Allocation.Pieces.{Piece, useful, filter}
use ai_daily_report.Allocation.Priority.{priority}
use ai_daily_report.Allocation.Bundles.{is_heading, is_placeholder}

abbrev kind_index : ContentUnitKind → ℕ
kind_index ContentUnitKind.heading = 0
kind_index ContentUnitKind.paragraph = 1
kind_index ContentUnitKind.table_header = 2
kind_index ContentUnitKind.table_row = 3
kind_index ContentUnitKind.unit = 4
kind_index ContentUnitKind.total = 5
kind_index ContentUnitKind.slide = 6
kind_index ContentUnitKind.text = 7
kind_index ContentUnitKind.placeholder = 8

abbrev same_ranges : List SourceRange → List SourceRange → Bool
same_ranges [] [] = true
same_ranges (r ∷ rs) (q ∷ qs) = same_range r q && same_ranges rs qs
same_ranges _ _ = false

-- The derived equality of pieces.
abbrev same_piece : Piece → Piece → Bool
same_piece p q =
    text_eq p.text q.text && kind_index p.kind == kind_index q.kind && same_ranges p.ranges q.ranges

abbrev same_pieces : List Piece → List Piece → Bool
same_pieces [] [] = true
same_pieces (p ∷ ps) (q ∷ qs) = same_piece p q && same_pieces ps qs
same_pieces _ _ = false

-- The pieces from the last heading on, or all.
abbrev from_heading : List Piece → List Piece
from_heading [] = []
from_heading (p ∷ ps) =
    let rest = from_heading ps in if any (λ q. is_heading q.kind) ps then rest else p ∷ ps

unfoldable pub structural_context : List Piece → List Piece
unfolding useful
structural_context ps =
    filter (λ (p : Piece). not (useful p.kind) && not (is_placeholder p.kind)) (from_heading ps)

-- How many pieces stand before the first useful one.
unfoldable pub useless_prefix : List Piece → ℕ
unfolding useful
useless_prefix [] = 0
useless_prefix (p ∷ ps) = let rest = useless_prefix ps in if useful p.kind then 0 else rest + 1

-- A block without the context that the file has already.
unfoldable pub trim_block : List Piece → List Piece → List Piece
unfolding structural_context useless_prefix
trim_block selected block =
    let prefix = useless_prefix block in
    if same_pieces (structural_context selected) (structural_context (take prefix block))
    then drop prefix block
    else block

pub record Slot : Type 0 where
  pub left : List (List Piece)
  pub selected : List Piece
  pub size : ℕ

pub record Allocation : Type 0 where
  pub slots : List Slot
  pub remaining : ℕ

abbrev pub block_size : ℕ → List Piece → ℕ
block_size size block =
    sum_by (λ (p : Piece). length p.text) block + (length block - 1) + (if size == 0 then 0 else 1)

-- The next block of a file, where it fits what is left.
unfoldable pub take_block : Slot → ℕ → Option (Slot × ℕ)
unfolding trim_block
take_block s remaining = elim s.left [
  | [] ↦ none
  | next ∷ rest ↦
      let block = trim_block s.selected next in
      let size = block_size s.size block in
      if leb size remaining && leb (length s.selected + length block) 512
      then some (
        record { left = rest; selected = s.selected ++ block; size = s.size + size },
        remaining - size,
      )
      else none
]

-- The slot of an index takes its block, and whether it did.
unfoldable pub visit : ℕ → List Slot → ℕ → List Slot × ℕ × Bool
unfolding take_block
visit index [] remaining = ([], remaining, false)
visit zero (s ∷ slots) remaining = elim (take_block s remaining) [
  | none ↦ (s ∷ slots, remaining, false)
  | some taken ↦ (taken.0 ∷ slots, taken.1, true)
]
visit (suc index) (s ∷ slots) remaining =
    let rest = visit index slots remaining in (s ∷ rest.0, rest.1, rest.2)

unfoldable pub visit_all : List ℕ → Allocation → Allocation × Bool
unfolding visit
visit_all [] a = (a, false)
visit_all (index ∷ order) a =
    let here = visit index a.slots a.remaining in
    let rest = visit_all order (record { slots = here.0; remaining = here.1 }) in
    (rest.0, here.2 || rest.1)

abbrev next_rank : List Slot → ℕ → ℕ
next_rank slots index = elim (get_elem? slots index) [
  | none ↦ 255
  | some s ↦ elim s.left [ [] ↦ 255 | block ∷ rest ↦ priority block ]
]

abbrev is_marked : List Bool → ℕ → Bool
is_marked marks index = elim (get_elem? marks index) [ none ↦ false | some m ↦ m ]

-- The first round keeps the order; later ones go by the rank of the next block.
unfoldable pub round_order : List ℕ → List Bool → Bool → Bool → List Slot → List ℕ
unfolding sort_by_key priority
round_order order marks first_round priority_depth slots =
    if first_round
    then order
    else sort_by_key compare (next_rank slots)
        (if priority_depth then filter (is_marked marks) order else order)

-- The loop, on fuel: `none` where it runs out.
unfoldable pub allocate_rounds :
    ℕ → List ℕ → List Bool → Bool → Bool → Allocation → Option Allocation
unfolding round_order visit_all
allocate_rounds zero order marks first_round priority_depth a = none
allocate_rounds (suc fuel) order marks first_round priority_depth a =
    let here = visit_all (round_order order marks first_round priority_depth a.slots) a in
    let next = here.0 in
    let progress = here.1 in
    let deepens = not progress && not first_round && priority_depth in
    elim (not deepens && (not progress || next.remaining == 0)) [
      | true ↦ some next
      | false ↦ allocate_rounds fuel order marks false (not deepens && priority_depth) next
    ]
