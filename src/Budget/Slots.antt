-- ===== src/Budget/Slots.antt =====
-- The detail slots of the omitted summary: they fit the reservation, are the first files in nominal
-- order, and do not depend on the order in which the files came.
use mathlib.Core.List.{Permᴰ}
use ai_daily_report.Prelude.{
  ℕ, ◌+◌, ◌≤◌, ◌<◌, ◌≡◌, List, [], ◌∷◌, ◌++◌, Text, leb, u64_max, arith, refl, sum_by, ap, inl, inr,
  saturating_add, Bool-cases,
}
use ai_daily_report.Prelude.Sorting.{sort_by_key, sort_by_key-canonical, HasDistinctKeys}
use ai_daily_report.Nominal.{key_cmp}
use ai_daily_report.Nominal.Order.{key_cmp-IsOrder}
use ai_daily_report.Budget.Sections.{omitted_summary_reservation, omitted_summary_fixed_chars}
use native.Mathlib.Nat.{add_assoc}
use ai_daily_report.Budget.Bounds.{omitted_summary_reservation_bounds}
use ai_daily_report.Budget.Omitted.{
  OmittedCandidate, row_cost, take_slots, candidate_key, build_plan,
}

take_slots_fit :
    (r used : ℕ) (files : List OmittedCandidate)
    → r < u64_max
    → used ≤ r
    → used + sum_by row_cost (take_slots r used files) ≤ r
unfolding take_slots
take_slots_fit r used [] h u = omega arith
take_slots_fit r used (f ∷ files) h u = ground (arith, take_slots_fit r (used + row_cost f) files)

-- What is left out begins with a file whose row does not fit beside those that are used.
abbrev pub Overflows : ℕ → ℕ → List OmittedCandidate → Type 0
Overflows r used [] = Unit
Overflows r used (f ∷ files) = r < used + row_cost f

take_slots_prefix :
    (r used : ℕ) (files : List OmittedCandidate)
    → r < u64_max
    → (rest : List OmittedCandidate) × (files ≡ take_slots r used files ++ rest)
      × Overflows r (used + sum_by row_cost (take_slots r used files)) rest
unfolding take_slots
take_slots_prefix r used [] h = ([], refl, tt)
take_slots_prefix r used (f ∷ files) h =
    let (rest, e, o) = take_slots_prefix r (used + row_cost f) files h in
    elim (Bool-cases (leb (saturating_add used (row_cost f)) r)) [
      | inl fits ↦ (
        rest,
        rw (fits, take_slots) (ap (◌∷◌ f) e),
        rw (fits, take_slots)
            (rw
              (← add_assoc used (row_cost f)
                (sum_by row_cost (take_slots r (used + row_cost f) files)))
              o),
      )
      | inr full ↦ (f ∷ files, rw (full, take_slots), rw (full, take_slots) (ground arith))
    ]

module _ (to_lowercase : Text → Text) where
  -- For a global budget below the greatest `u64` that can hold the summary's fixed rows, the fixed
  -- rows and the worst-case rows of all detail slots fit the reservation; the slots are the first
  -- files in nominal order, and the first file left out would not fit beside them.
  pub build_plan_slots :
      (files : List OmittedCandidate) (g : ℕ)
      → omitted_summary_fixed_chars ≤ omitted_summary_reservation g
      → let plan = build_plan to_lowercase files g in
        (omitted_summary_fixed_chars + sum_by row_cost plan.detail_slots ≤ plan.reservation)
        × ((rest : List OmittedCandidate) × (sort_by_key key_cmp (candidate_key to_lowercase) files
              ≡ plan.detail_slots ++ rest)
            × Overflows plan.reservation
                (omitted_summary_fixed_chars + sum_by row_cost plan.detail_slots)
                rest)
  unfolding build_plan
  build_plan_slots files g fixed =
      let sorted = sort_by_key key_cmp (candidate_key to_lowercase) files in
      let small : omitted_summary_reservation g < u64_max =
        omega (arith, omitted_summary_reservation_bounds g) in
      (
        take_slots_fit (omitted_summary_reservation g) omitted_summary_fixed_chars sorted small
            fixed,
        take_slots_prefix (omitted_summary_reservation g) omitted_summary_fixed_chars sorted small,
      )

  -- Files with distinct nominal keys get the same plan in whatever order they are given.
  pub build_plan-canonical :
      {files files' : List OmittedCandidate} (g : ℕ)
      → Permᴰ files files'
      → HasDistinctKeys key_cmp (candidate_key to_lowercase) files
      → build_plan to_lowercase files g ≡ build_plan to_lowercase files' g
  unfolding build_plan
  build_plan-canonical {files} {files'} g p d =
      rw (sort_by_key-canonical key_cmp-IsOrder (candidate_key to_lowercase) p d)
