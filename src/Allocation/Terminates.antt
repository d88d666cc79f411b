-- ===== src/Allocation/Terminates.antt =====
-- The rounds of the allocation end: each takes a block, or leaves the priority files, or is the last.
use mathlib.Core.Path.{subst}
use ai_daily_report.Prelude.{
  ℕ, zero, suc, ◌+◌, ◌≤◌, ◌≡◌, inl, inr, refl, ap, ◌∙◌, arith, Bool, true, false, not, some, List,
  [], ◌∷◌, map, Text, length, any, ◌&&◌, ◌||◌, ◌==◌, if◌then◌else◌, Bool-cases,
}
use ai_daily_report.Decision.Evidence.{ContextFileEvidence}
use ai_daily_report.Allocation.Bundles.{bundles}
use ai_daily_report.Allocation.Order.{file_order, is_priority_file}
use ai_daily_report.Allocation.Rounds.{Slot, Allocation, visit_all, round_order, allocate_rounds}
use ai_daily_report.Allocation.Excerpts.{
  AllocatedExcerpt, excerpts_of, new_slot, blocks_left, finish_rounds, collect,
  allocate_excerpts_with_priority,
}
use ai_daily_report.Allocation.Taken.{visit_all_left, length-visit_all}

-- A round for each block, one to leave the priority files, and the last one.
rounds_total :
    (fuel : ℕ) (order : List ℕ) (marks : List Bool) (first depth : Bool) (a : Allocation)
    → suc (blocks_left a.slots + (if depth then 1 else 0)) ≤ fuel
    → (b : Allocation) × (allocate_rounds fuel order marks first depth a ≡ some b)
unfolding allocate_rounds
rounds_total zero order marks first depth a h = absurd (omega arith)
rounds_total (suc fuel) order marks first depth a h =
    let visits = round_order order marks first depth a.slots in
    let less = visit_all_left visits a in
    let next = (visit_all visits a).0 in
    elim (Bool-cases (visit_all visits a).1) [
      | inl progress ↦ elim (Bool-cases (next.remaining == 0)) [
        | inl done ↦ (next, ground arith)
        | inr more ↦
            let (b, e) = rounds_total fuel order marks false depth next (ground arith) in
            (b, ground (arith, e))
      ]
      | inr stuck ↦ elim (Bool-cases (not first && depth)) [
        | inl deepens ↦
            let (b, e) = rounds_total fuel order marks false false next (ground arith) in
            (b, ground (arith, e))
        | inr done ↦ (next, ground arith)
      ]
    ]

-- What a round keeps, the loop keeps.
pub rounds_keep {κ} :
    (Q : Allocation → Type κ)
    → ((visits : List ℕ) (a : Allocation) → Q a → Q (visit_all visits a).0)
    → (fuel : ℕ) (order : List ℕ) (marks : List Bool) (first depth : Bool) (a b : Allocation)
    → allocate_rounds fuel order marks first depth a ≡ some b
    → Q a
    → Q b
unfolding allocate_rounds
rounds_keep Q keeps zero order marks first depth a b h q = absurd (ground arith)
rounds_keep Q keeps (suc fuel) order marks first depth a b h q =
    let visits = round_order order marks first depth a.slots in
    let next = (visit_all visits a).0 in
    let kept = keeps visits a q in
    let deepens = not (visit_all visits a).1 && not first && depth in
    elim (Bool-cases (not deepens && (not (visit_all visits a).1 || next.remaining == 0))) [
      | inl done ↦ let e : next ≡ b = ground arith in subst Q e kept
      | inr more ↦
          rounds_keep Q keeps fuel order marks false (not deepens && depth) next b (ground arith)
            kept
    ]

length-excerpts_of :
    (evidence : List ContextFileEvidence) (slots : List Slot)
    → length slots ≡ length evidence
    → length (excerpts_of evidence slots) ≡ length evidence
length-excerpts_of [] slots h = refl
length-excerpts_of (item ∷ items) [] h = ground arith
length-excerpts_of (item ∷ items) (s ∷ slots) h = ground (arith, length-excerpts_of items slots)

length-map {ℓ κ} :
    {A : Type ℓ} {B : Type κ} (f : A → B) (xs : List A) → length (map f xs) ≡ length xs
length-map f [] = refl
length-map f (x ∷ xs) = ap suc (length-map f xs)

-- What a round keeps holds after the rounds.
pub finish_rounds_keep {κ} :
    (Q : Allocation → Type κ)
    → ((visits : List ℕ) (a : Allocation) → Q a → Q (visit_all visits a).0)
    → (evidence : List ContextFileEvidence) (budget : ℕ) (priority_paths : List Text)
      (b : Allocation)
    → finish_rounds evidence budget priority_paths ≡ some b
    → Q (record { slots = map new_slot (map bundles evidence); remaining = budget })
    → Q b
unfolding finish_rounds
finish_rounds_keep Q keeps evidence budget priority_paths b h q =
    let marks = map (is_priority_file priority_paths) evidence in
    let slots = map new_slot (map bundles evidence) in
    rounds_keep Q keeps (blocks_left slots + 2) (file_order evidence (map bundles evidence)) marks
      true (any (λ m. m) marks) (record { slots = slots; remaining = budget }) b h q

pub length-finish_rounds :
    (evidence : List ContextFileEvidence) (budget : ℕ) (priority_paths : List Text) (b : Allocation)
    → finish_rounds evidence budget priority_paths ≡ some b
    → length b.slots ≡ length evidence
length-finish_rounds evidence budget priority_paths b h =
    finish_rounds_keep (λ a. length a.slots ≡ length evidence)
      (λ visits a same. length-visit_all visits a ∙ same) evidence budget priority_paths b h
      (length-map new_slot (map bundles evidence) ∙ length-map bundles evidence)

finish_rounds_total :
    (evidence : List ContextFileEvidence) (budget : ℕ) (priority_paths : List Text)
    → (b : Allocation) × (finish_rounds evidence budget priority_paths ≡ some b)
unfolding finish_rounds
finish_rounds_total evidence budget priority_paths =
    let marks = map (is_priority_file priority_paths) evidence in
    let slots = map new_slot (map bundles evidence) in
    rounds_total (blocks_left slots + 2) (file_order evidence (map bundles evidence)) marks true
      (any (λ m. m) marks) (record { slots = slots; remaining = budget }) (ground arith)

-- The allocation ends for all evidence, budgets and priority paths: a round for each block of the
-- files and two more are enough, and each file gets one excerpt.
pub allocate_excerpts_with_priority_total :
    (evidence : List ContextFileEvidence) (budget : ℕ) (priority_paths : List Text)
    → (excerpts : List AllocatedExcerpt) × (allocate_excerpts_with_priority evidence budget
          priority_paths
        ≡ some excerpts)
      × (length excerpts ≡ length evidence)
unfolding allocate_excerpts_with_priority
allocate_excerpts_with_priority_total evidence budget priority_paths =
    let (b, e) = finish_rounds_total evidence budget priority_paths in
    (
      excerpts_of evidence b.slots,
      ap (collect evidence) e,
      length-excerpts_of evidence b.slots (length-finish_rounds evidence budget priority_paths b e),
    )
