-- ===== src/Rendering/Totals.antt =====
-- The summary counts every omitted file once.
use ai_daily_report.Prelude.{
  Result-cases, inl, inr, ℕ, ◌+◌, ◌≡◌, refl, arith, List, [], ◌∷◌, Text, length, ltb, if◌then◌else◌,
  sum_by, saturating_add, ok, u64_max, ◌≤◌,
}
use ai_daily_report.Budget.Sections.{count_chars}
use ai_daily_report.Rendering.Summary.{
  OmittedRow, GroupKey, detail_rows, bump, groups_of, group_line, aggregate, other_line, other_rows,
  summary_section, summary_text, checked_section, header_used,
}

bump_total :
    (key : GroupKey) (gs : List (GroupKey × ℕ))
    → sum_by (λ g. g.1) (bump key gs) ≡ sum_by (λ g. g.1) gs + 1
unfolding bump
bump_total key [] = refl
bump_total key ((k, n) ∷ rest) = ground (arith, bump_total key rest)

groups_of_total :
    (rows : List OmittedRow) (gs : List (GroupKey × ℕ))
    → sum_by (λ g. g.1) (groups_of rows gs) ≡ sum_by (λ g. g.1) gs + length rows
unfolding groups_of
groups_of_total [] gs = omega arith
groups_of_total (row ∷ rows) gs = omega (
  arith,
  groups_of_total rows (bump (row.reason, row.extension) gs),
  bump_total (row.reason, row.extension) gs,
)

aggregate_total :
    (reservation : ℕ) (gs : List (GroupKey × ℕ)) (used other : ℕ)
    → other + sum_by (λ g. g.1) gs ≤ u64_max
    → let r = aggregate reservation gs used other in
      sum_by (λ g. g.1) r.shown + r.other_count ≡ other + sum_by (λ g. g.1) gs
unfolding aggregate
aggregate_total reservation [] used other h = omega arith
aggregate_total reservation (g ∷ gs) used other h = ground (
  arith,
  aggregate_total reservation gs (saturating_add used (count_chars (group_line g) + 1)) other,
  aggregate_total reservation gs used (saturating_add other g.1),
)

-- The catch-all row of a count, if it is positive.
abbrev pub catch_all : ℕ → List Text
catch_all other = if ltb 0 other then other_line other ∷ [] else []

other_rows_ok :
    (reservation used other : ℕ) (rows : List Text)
    → other_rows reservation used other ≡ ok rows
    → rows ≡ catch_all other
unfolding other_rows
other_rows_ok reservation used other rows h = ground arith

pub checked_section_ok :
    (reservation : ℕ) (text section : Text)
    → checked_section reservation text ≡ ok section
    → (section ≡ text) × (length section ≤ reservation)
unfolding checked_section count_chars
checked_section_ok reservation text section h = (ground arith, ground arith)

-- A summary of omitted files is the header with their number, detail rows, one row for each shown
-- group and a catch-all row where groups are left over; the counts of the groups and of the
-- catch-all row add up to the omitted files, and the whole fits its reservation.
pub summary_section_lem :
    (reservation : ℕ) (omitted : List OmittedRow) (section : Text)
    → length omitted ≤ u64_max
    → summary_section reservation omitted ≡ ok section
    → (details : List Text) × (shown : List (GroupKey × ℕ)) × (other : ℕ) × (section
        ≡ summary_text (length omitted) details shown (catch_all other))
      × (sum_by (λ g. g.1) shown + other ≡ length omitted)
      × (length section ≤ reservation)
unfolding summary_section
summary_section_lem reservation omitted section few h =
    elim (Result-cases (detail_rows reservation (header_used (length omitted)) omitted)) [
      | inl (details, d) ↦
          let groups = aggregate reservation (groups_of omitted []) details.1 0 in
          elim (Result-cases (other_rows reservation groups.used groups.other_count)) [
            | inl (rows, o) ↦
                let total = groups_of_total omitted [] in
                let checked : checked_section reservation
                      (summary_text (length omitted) details.0 groups.shown rows)
                    ≡ ok section =
                  ground arith in
                let (text, fits) = checked_section_ok reservation _ section checked in
                (
                  details.0,
                  groups.shown,
                  groups.other_count,
                  rw (← other_rows_ok reservation groups.used groups.other_count rows o) text,
                  omega (
                    arith,
                    total,
                    aggregate_total reservation (groups_of omitted []) details.1 0
                        (omega (arith, total)),
                  ),
                  fits,
                )
            | inr (x, o) ↦ absurd (ground arith)
          ]
      | inr (x, d) ↦ absurd (ground arith)
    ]
