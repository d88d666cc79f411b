-- ===== src/Allocation/Taken.antt =====
-- What a slot that takes a block is, and what a visit changes.
use mathlib.Core.Path.{subst}
use ai_daily_report.Prelude.{
  All, ℕ, zero, suc, ◌+◌, ◌≤◌, ◌≡◌, inl, inr, refl, sym, ap, ◌∙◌, arith, some, List, [], ◌∷◌, ◌++◌,
  length, sum_by, if◌then◌else◌, Option-cases,
}
use ai_daily_report.Allocation.Pieces.{Piece}
use ai_daily_report.Allocation.Rounds.{
  Slot, Allocation, take_block, trim_block, block_size, visit, visit_all,
}

-- What a slot that takes a block is.
pub record IsTaken (s : Slot) (remaining : ℕ) (t : Slot) (rest : ℕ) : Type 0 where
  pub block : List Piece
  pub one : length s.left ≡ suc (length t.left)
  pub chosen : t.selected ≡ s.selected ++ block
  pub sized : t.size ≡ s.size + block_size s.size block
  pub paid : rest + block_size s.size block ≡ remaining
  pub few : length s.selected + length block ≤ 512

took :
    (s : Slot) (left : List (List Piece)) (remaining : ℕ) (t : Slot) (rest : ℕ)
    → s.left ≡ left
    → take_block s remaining ≡ some (t, rest)
    → IsTaken s remaining t rest
unfolding take_block
took s [] remaining t rest e h = ground arith
took s (next ∷ blocks) remaining t rest e h =
    let block = trim_block s.selected next in
    let size = block_size s.size block in
    let eq : t ≡ record { left = blocks; selected = s.selected ++ block; size = s.size + size } =
      ground arith in
    let paid : rest + size ≡ remaining = ground arith in
    let few : length s.selected + length block ≤ 512 = ground arith in
    record {
      block = block;
      one = ap length e ∙ ap (λ x. suc (length x.left)) (sym eq);
      chosen = ap (λ x. x.selected) eq;
      sized = ap (λ x. x.size) eq;
      paid = paid;
      few = few;
    }

pub take_block-IsTaken :
    (s : Slot) (remaining : ℕ) (t : Slot) (rest : ℕ)
    → take_block s remaining ≡ some (t, rest)
    → IsTaken s remaining t rest
take_block-IsTaken s remaining t rest h = took s s.left remaining t rest refl h

-- A visit takes one block from what is left, or none.
pub visit_left :
    (index : ℕ) (slots : List Slot) (remaining : ℕ)
    → sum_by (λ (s : Slot). length s.left) (visit index slots remaining).0
        + (if (visit index slots remaining).2 then 1 else 0)
      ≡ sum_by (λ (s : Slot). length s.left) slots
unfolding visit
visit_left index [] remaining = refl
visit_left zero (s ∷ slots) remaining = elim (Option-cases (take_block s remaining)) [
  | inl e ↦ ground arith
  | inr ((t, rest), e) ↦ ground (arith, (take_block-IsTaken s remaining t rest e).one)
]
visit_left (suc index) (s ∷ slots) remaining = omega (arith, visit_left index slots remaining)

-- A visit moves what a block costs from the budget to its slot.
pub visit_paid :
    (index : ℕ) (slots : List Slot) (remaining : ℕ)
    → sum_by (λ (s : Slot). s.size) (visit index slots remaining).0
        + (visit index slots remaining).1
      ≡ sum_by (λ (s : Slot). s.size) slots + remaining
unfolding visit
visit_paid index [] remaining = refl
visit_paid zero (s ∷ slots) remaining = elim (Option-cases (take_block s remaining)) [
  | inl e ↦ ground arith
  | inr ((t, rest), e) ↦
      let i = take_block-IsTaken s remaining t rest e in ground (arith, i.sized, i.paid)
]
visit_paid (suc index) (s ∷ slots) remaining = omega (arith, visit_paid index slots remaining)

-- A property that a slot keeps when it takes a block.
module _ {κ} (P : Slot → Type κ)
    (keeps : (s t : Slot) (remaining rest : ℕ) → IsTaken s remaining t rest → P s → P t) where
  pub visit-All :
      (index : ℕ) (slots : List Slot) (remaining : ℕ)
      → All P slots
      → All P (visit index slots remaining).0
  unfolding visit
  visit-All index [] remaining h = tt
  visit-All zero (s ∷ slots) remaining h = elim (Option-cases (take_block s remaining)) [
    | inl e ↦
        let same : (visit zero (s ∷ slots) remaining).0 ≡ s ∷ slots = ground arith in
        subst (All P) (sym same) h
    | inr ((t, rest), e) ↦
        let next : (visit zero (s ∷ slots) remaining).0 ≡ t ∷ slots = ground arith in
        subst (All P) (sym next)
          (keeps s t remaining rest (take_block-IsTaken s remaining t rest e) h.0, h.1)
  ]
  visit-All (suc index) (s ∷ slots) remaining h = (h.0, visit-All index slots remaining h.1)

  pub visit_all-All :
      (order : List ℕ) (a : Allocation) → All P a.slots → All P (visit_all order a).0.slots
  unfolding visit_all
  visit_all-All [] a h = h
  visit_all-All (index ∷ order) a h = visit_all-All order _ (visit-All index a.slots a.remaining h)

pub length-visit :
    (index : ℕ) (slots : List Slot) (remaining : ℕ)
    → length (visit index slots remaining).0 ≡ length slots
unfolding visit
length-visit index [] remaining = refl
length-visit zero (s ∷ slots) remaining = elim (Option-cases (take_block s remaining)) [
  | inl e ↦ ground arith
  | inr (taken, e) ↦ ground arith
]
length-visit (suc index) (s ∷ slots) remaining = omega (arith, length-visit index slots remaining)

pub length-visit_all :
    (order : List ℕ) (a : Allocation) → length (visit_all order a).0.slots ≡ length a.slots
unfolding visit_all
length-visit_all [] a = refl
length-visit_all (index ∷ order) a =
    length-visit_all order _ ∙ length-visit index a.slots a.remaining

pub visit_all_paid :
    (order : List ℕ) (a : Allocation)
    → sum_by (λ (s : Slot). s.size) (visit_all order a).0.slots + (visit_all order a).0.remaining
      ≡ sum_by (λ (s : Slot). s.size) a.slots + a.remaining
unfolding visit_all
visit_all_paid [] a = refl
visit_all_paid (index ∷ order) a = visit_all_paid order _ ∙ visit_paid index a.slots a.remaining

-- Progress takes a block.
pub visit_all_left :
    (order : List ℕ) (a : Allocation)
    → sum_by (λ (s : Slot). length s.left) (visit_all order a).0.slots
        + (if (visit_all order a).1 then 1 else 0)
      ≤ sum_by (λ (s : Slot). length s.left) a.slots
unfolding visit_all
visit_all_left [] a = omega arith
visit_all_left (index ∷ order) a = ground (
  arith,
  visit_left index a.slots a.remaining,
  visit_all_left order (record {
    slots = (visit index a.slots a.remaining).0;
    remaining = (visit index a.slots a.remaining).1;
  }),
)
