-- ===== src/Allocation/Bounds.antt =====
-- What the excerpts may hold: the budget of all, and the units of each.
use ai_daily_report.Prelude.{
  ℕ, suc, ◌+◌, ◌-◌, ◌≤◌, ◌≡◌, inl, inr, refl, ap, ◌∙◌, arith, Option, none, some, List, [], ◌∷◌,
  ◌++◌, map, Text, length, is_empty, ◌==◌, length-append, sum_by, All, if◌then◌else◌, Option-cases,
}
use ai_daily_report.Audit.Types.{ParsedContentAudit}
use ai_daily_report.Decision.Evidence.{ContextFileEvidence}
use ai_daily_report.Allocation.Pieces.{Piece, audited_units}
use ai_daily_report.Allocation.Bundles.{bundles}
use ai_daily_report.Allocation.Rounds.{Slot, Allocation, block_size}
use ai_daily_report.Allocation.Excerpts.{
  AllocatedExcerpt, Joined, new_joined, join_piece, join_pieces, excerpt_of, excerpts_of, new_slot,
  finish_rounds, allocate_excerpts_with_priority,
}
use ai_daily_report.Allocation.Taken.{IsTaken, visit_all-All, visit_all_paid}
use ai_daily_report.Allocation.Terminates.{finish_rounds_keep}

join_pieces-append :
    (j : Joined) (ps qs : List Piece) → join_pieces j (ps ++ qs) ≡ join_pieces (join_pieces j ps) qs
unfolding join_pieces
join_pieces-append j [] qs = refl
join_pieces-append j (p ∷ ps) qs = join_pieces-append (join_piece j p) ps qs

-- Whether a separator stands before the next piece.
abbrev gap : Text → ℕ
gap text = if is_empty text then 0 else 1

gap_le : (text : Text) → gap text ≤ 1
gap_le [] = omega arith
gap_le (c ∷ text) = omega arith

gap_below : (text : Text) (size : ℕ) → length text ≤ size → gap text ≤ (if size == 0 then 0 else 1)
gap_below [] size h = omega arith
gap_below (c ∷ text) size h = ground arith

separated :
    (text next : Text)
    → length (text ++ (if is_empty text then [] else b'\n' ∷ []) ++ next)
      ≡ length text + gap text + length next
separated [] next = omega arith
separated (c ∷ text) next =
    length-append (c ∷ text ++ b'\n' ∷ []) next
    ∙ ap (λ n. n + length next) (length-append (c ∷ text) (b'\n' ∷ []))

length-join_piece :
    (j : Joined) (p : Piece)
    → length (join_piece j p).text ≡ length j.text + gap j.text + length p.text
unfolding join_piece
length-join_piece j p = separated j.text p.text

mapped_join_piece :
    (j : Joined) (p : Piece) → length (join_piece j p).mapped ≡ suc (length j.mapped)
unfolding join_piece
mapped_join_piece j p = omega (arith, length-append j.mapped)

abbrev text_size : List Piece → ℕ
text_size = sum_by (λ (p : Piece). length p.text)

-- The text of a file with a block added, against the price of the block.
length-join_pieces :
    (j : Joined) (ps : List Piece)
    → length (join_pieces j ps).text ≤ length j.text + (text_size ps + (length ps - 1) + gap j.text)
unfolding join_pieces
length-join_pieces j [] = omega arith
length-join_pieces j (p ∷ []) = omega (arith, length-join_piece j p)
length-join_pieces j (p ∷ q ∷ ps) = omega (
  arith,
  length-join_piece j p,
  gap_le (join_piece j p).text,
  length-join_pieces (join_piece j p) (q ∷ ps),
)

mapped_join_pieces :
    (j : Joined) (ps : List Piece) → length (join_pieces j ps).mapped ≡ length j.mapped + length ps
unfolding join_pieces
mapped_join_pieces j [] = omega arith
mapped_join_pieces j (p ∷ ps) =
    omega (arith, mapped_join_piece j p, mapped_join_pieces (join_piece j p) ps)

-- A slot pays for its text and has few pieces.
abbrev IsPaid : Slot → Type 0
IsPaid s = (length (join_pieces new_joined s.selected).text ≤ s.size) × (length s.selected ≤ 512)

taken-IsPaid : (s t : Slot) (remaining rest : ℕ) → IsTaken s remaining t rest → IsPaid s → IsPaid t
taken-IsPaid s t remaining rest i h =
    let j = join_pieces new_joined s.selected in
    let text : length (join_pieces new_joined (s.selected ++ i.block)).text
        ≤ s.size + block_size s.size i.block =
      rw (join_pieces-append new_joined s.selected i.block)
        (omega (arith, h.0, gap_below j.text s.size h.0, length-join_pieces j i.block)) in
    (
      rw (i.chosen, i.sized) text,
      rw i.chosen (omega (arith, i.few, length-append s.selected i.block)),
    )

new_slots-IsPaid : (units : List (List (List Piece))) → All IsPaid (map new_slot units)
unfolding join_pieces
new_slots-IsPaid [] = tt
new_slots-IsPaid (u ∷ units) = ((omega arith, omega arith), new_slots-IsPaid units)

new_slots_size :
    (units : List (List (List Piece))) → sum_by (λ (s : Slot). s.size) (map new_slot units) ≡ 0
new_slots_size [] = refl
new_slots_size (u ∷ units) = omega (arith, new_slots_size units)

-- The number of content units that an audit maps.
abbrev pub unit_count : Option ParsedContentAudit → ℕ
unit_count audit = elim (audited_units audit) [ none ↦ 0 | some units ↦ length units ]

excerpt_text_le :
    (item : ContextFileEvidence) (s : Slot) → IsPaid s → length (excerpt_of item s).text ≤ s.size
unfolding excerpt_of
excerpt_text_le item s h = h.0

excerpt_units_le :
    (item : ContextFileEvidence) (s : Slot) → IsPaid s → unit_count (excerpt_of item s).audit ≤ 512
unfolding excerpt_of
excerpt_units_le item s h = elim (Option-cases item.evidence_audit) [
  | inl e ↦ ground arith
  | inr (audit, e) ↦ elim (Option-cases audit.content_units) [
    | inl f ↦ ground arith
    | inr (units, f) ↦ ground (arith, mapped_join_pieces new_joined s.selected)
  ]
]

excerpts_text :
    (evidence : List ContextFileEvidence) (slots : List Slot)
    → All IsPaid slots
    → sum_by (λ (x : AllocatedExcerpt). length x.text) (excerpts_of evidence slots)
      ≤ sum_by (λ (s : Slot). s.size) slots
excerpts_text [] slots h = omega arith
excerpts_text (item ∷ items) [] h = omega arith
excerpts_text (item ∷ items) (s ∷ slots) h =
    omega (arith, excerpt_text_le item s h.0, excerpts_text items slots h.1)

excerpts_units :
    (evidence : List ContextFileEvidence) (slots : List Slot)
    → All IsPaid slots
    → All (λ (x : AllocatedExcerpt). unit_count x.audit ≤ 512) (excerpts_of evidence slots)
excerpts_units [] slots h = tt
excerpts_units (item ∷ items) [] h = tt
excerpts_units (item ∷ items) (s ∷ slots) h =
    (excerpt_units_le item s h.0, excerpts_units items slots h.1)

collected :
    (evidence : List ContextFileEvidence) (budget : ℕ) (priority_paths : List Text)
    (excerpts : List AllocatedExcerpt)
    → allocate_excerpts_with_priority evidence budget priority_paths ≡ some excerpts
    → (b : Allocation) × (finish_rounds evidence budget priority_paths ≡ some b)
      × (excerpts ≡ excerpts_of evidence b.slots)
unfolding allocate_excerpts_with_priority
collected evidence budget priority_paths excerpts h =
    elim (Option-cases (finish_rounds evidence budget priority_paths)) [
      | inl e ↦ absurd (ground arith)
      | inr (b, e) ↦ (b, e, ground arith)
    ]

-- The excerpts of all files together keep to the budget of characters, their separators included,
-- and no audit of an excerpt maps more than 512 content units.
pub allocate_excerpts_with_priority_bounds :
    (evidence : List ContextFileEvidence) (budget : ℕ) (priority_paths : List Text)
    (excerpts : List AllocatedExcerpt)
    → allocate_excerpts_with_priority evidence budget priority_paths ≡ some excerpts
    → (sum_by (λ (x : AllocatedExcerpt). length x.text) excerpts ≤ budget)
      × All (λ (x : AllocatedExcerpt). unit_count x.audit ≤ 512) excerpts
allocate_excerpts_with_priority_bounds evidence budget priority_paths excerpts h =
    let (b, e, same) = collected evidence budget priority_paths excerpts h in
    let paid =
      finish_rounds_keep (λ a. All IsPaid a.slots)
        (λ visits a. visit_all-All IsPaid taken-IsPaid visits a) evidence budget priority_paths b e
        (new_slots-IsPaid (map bundles evidence)) in
    let spent =
      finish_rounds_keep (λ a. sum_by (λ (s : Slot). s.size) a.slots + a.remaining ≡ budget)
        (λ visits a kept. visit_all_paid visits a ∙ kept) evidence budget priority_paths b e
        (omega (arith, new_slots_size (map bundles evidence))) in
    rw same (
      omega (arith, spent, excerpts_text evidence b.slots paid),
      excerpts_units evidence b.slots paid,
    )
