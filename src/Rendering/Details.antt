-- ===== src/Rendering/Details.antt =====
-- Detail rows of the omitted summary keep to the price of their slots.
use ai_daily_report.Prelude.{
  ℕ, ◌+◌, ◌≤◌, ◌≡◌, ◌∙◌, refl, arith, true, false, List, [], ◌∷◌, Text, length, sum_by, All,
  length-show, ok, if◌then◌else◌, leb, u64_max, Bool-cases, inl, inr, saturating_add,
}
use ai_daily_report.Budget.Sections.{count_chars, max_omitted_row_chars}
use ai_daily_report.Rendering.Fits.{length-format}
use ai_daily_report.Rendering.Summary.{OmittedRow, detail_line, detail_rows}

-- What a slot is priced at.
abbrev pub price : OmittedRow → ℕ
price row = if row.in_detail_slot then max_omitted_row_chars row.relative_path + 1 else 0

detail_line-price :
    (row : OmittedRow)
    → length row.reason ≤ 64
    → length (detail_line row) + 1 ≤ max_omitted_row_chars row.relative_path + 1
unfolding detail_line max_omitted_row_chars count_chars
detail_line-price row h = rw length-format (omega (arith, length-show row.input_chars))

detail_rows_taken :
    (reservation used : ℕ) (row : OmittedRow) (rows : List OmittedRow) (r : List Text × ℕ)
    → row.in_detail_slot ≡ true
    → saturating_add used (length (detail_line row) + 1) ≤ reservation
    → detail_rows reservation (saturating_add used (length (detail_line row) + 1)) rows ≡ ok r
    → detail_rows reservation used (row ∷ rows) ≡ ok (detail_line row ∷ r.0, r.1)
unfolding detail_rows count_chars
detail_rows_taken reservation used row rows r slot room e =
    let fits : leb (saturating_add used (length (detail_line row) + 1)) reservation ≡ true =
      ground arith in
    rw (slot, fits, e) refl

detail_rows_skipped :
    (reservation used : ℕ) (row : OmittedRow) (rows : List OmittedRow)
    → row.in_detail_slot ≡ false
    → detail_rows reservation used (row ∷ rows) ≡ detail_rows reservation used rows
unfolding detail_rows
detail_rows_skipped reservation used row rows other = rw other refl

-- Where the prices of the pre-selected rows fit the reservation behind what is used, and no reason
-- has more than 64 characters, the detail rows are all written and use at most their prices.
pub detail_rows-price :
    (reservation used : ℕ) (rows : List OmittedRow)
    → reservation ≤ u64_max
    → used + sum_by price rows ≤ reservation
    → All (λ row. length row.reason ≤ 64) rows
    → (r : List Text × ℕ) × (detail_rows reservation used rows ≡ ok r)
      × (length r.0 ≡ sum_by (λ row. if row.in_detail_slot then 1 else 0) rows)
      × (r.1 ≤ used + sum_by price rows)
unfolding detail_rows count_chars
detail_rows-price reservation used [] word fits short = (([], used), refl, refl, omega arith)
detail_rows-price reservation used (row ∷ rows) word fits short =
    let line = detail_line row in
    let cost = detail_line-price row short.0 in
    let needed = saturating_add used (length line + 1) in
    elim (Bool-cases row.in_detail_slot) [
      | inl slot ↦
          let paid : needed + sum_by price rows ≤ reservation = ground (arith, cost) in
          let (r, e, n, le) = detail_rows-price reservation needed rows word paid short.1 in
          (
            (line ∷ r.0, r.1),
            detail_rows_taken reservation used row rows r slot (omega (arith, paid)) e,
            ground (arith, n),
            ground (arith, le, cost),
          )
      | inr other ↦
          let (r, e, n, le) = detail_rows-price reservation used rows word (ground arith) short.1 in
          (
            r,
            detail_rows_skipped reservation used row rows other ∙ e,
            ground (arith, n),
            ground (arith, le),
          )
    ]
