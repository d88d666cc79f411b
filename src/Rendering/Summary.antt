-- ===== src/Rendering/Summary.antt =====
-- rust/scanner_core/src/compressor.rs: the summary of omitted files, up to its section. A `BTreeMap`
-- is the list of its entries, in the order of its keys.
use ai_daily_report.Prelude.{
  ℕ, ◌+◌, Bool, List, [], ◌∷◌, ◌++◌, map, Text, codes, length, leb, ltb, Ordering, if◌then◌else◌,
  show, saturating_add, Result, ok, err, ensure, ◌>>=◌, ◌>>◌,
}
use ai_daily_report.Prelude.Order.{text_cmp, pair_cmp}
use ai_daily_report.Budget.Sections.{count_chars, section_separator_chars}
use ai_daily_report.Rendering.Sections.{format}

pub record OmittedRow : Type 0 where
  pub relative_path : Text
  pub extension : Text
  pub reason : Text
  pub input_chars : ℕ
  pub in_detail_slot : Bool

-- `budget_model_mismatch` of rust/scanner_core/src/budget_model.rs.
unfoldable pub budget_model_mismatch : Text → Text
budget_model_mismatch context = codes "BUDGET_MODEL_MISMATCH: " ++ context

-- `lines.join("\n")`
unfoldable pub join_lines : List Text → Text
join_lines [] = []
join_lines (t ∷ []) = t
join_lines (t ∷ u ∷ ts) = t ++ (codes "\n" ++ join_lines (u ∷ ts))

unfoldable pub header_lines : ℕ → List Text
unfolding show format
header_lines count = codes "## 省略文件摘要" ∷ format (codes "- 省略文件数: " ∷ show count ∷ []) ∷ []

unfoldable pub detail_line : OmittedRow → Text
unfolding show format
detail_line row = format (
    codes "- "
    ∷ row.relative_path
    ∷ codes " | action=omit | reason="
    ∷ row.reason
    ∷ codes " | input_chars=~"
    ∷ show row.input_chars
    ∷ [])

-- The loop over detail rows: the lines that it pushes, and what is used behind them.
unfoldable pub detail_rows : ℕ → ℕ → List OmittedRow → Result Text (List Text × ℕ)
unfolding detail_line count_chars
detail_rows reservation used [] = ok ([], used)
detail_rows reservation used (row ∷ rows) =
    let line = detail_line row in
    let needed = saturating_add used (count_chars line + 1) in
    let skipped = detail_rows reservation used rows in
    let rest = detail_rows reservation needed rows in
    if row.in_detail_slot
    then (if leb needed reservation
        then rest >>= (λ r. ok (line ∷ r.0, r.1))
        else err
            (budget_model_mismatch (codes "pre-selected omitted detail exceeds its reservation")))
    else skipped

abbrev pub GroupKey : Type 0
GroupKey = Text × Text

abbrev pub group_cmp : GroupKey → GroupKey → Ordering
group_cmp = pair_cmp text_cmp text_cmp

abbrev bump_at :
    Ordering
    → GroupKey
    → GroupKey
    → ℕ
    → List (GroupKey × ℕ)
    → List (GroupKey × ℕ)
    → List (GroupKey × ℕ)
bump_at Ordering.lt key k n rest bumped = (key, 1) ∷ (k, n) ∷ rest
bump_at Ordering.eq key k n rest bumped = (k, n + 1) ∷ rest
bump_at Ordering.gt key k n rest bumped = (k, n) ∷ bumped

-- `*groups.entry(key).or_insert(0) += 1`
unfoldable pub bump : GroupKey → List (GroupKey × ℕ) → List (GroupKey × ℕ)
bump key [] = (key, 1) ∷ []
bump key ((k, n) ∷ rest) =
    let bumped = bump key rest in bump_at (group_cmp key k) key k n rest bumped

unfoldable pub groups_of : List OmittedRow → List (GroupKey × ℕ) → List (GroupKey × ℕ)
unfolding bump
groups_of [] groups = groups
groups_of (row ∷ rows) groups = groups_of rows (bump (row.reason, row.extension) groups)

unfoldable pub group_line : GroupKey × ℕ → Text
unfolding show format
group_line g =
    format
      (codes "- " ∷ g.0.0 ∷ codes " | " ∷ g.0.1 ∷ codes " | action=omit | count=" ∷ show g.1 ∷ [])

-- What the loop over groups leaves: the groups with a row, what is used, and the count of the rest.
pub record Aggregated : Type 0 where
  pub shown : List (GroupKey × ℕ)
  pub used : ℕ
  pub other_count : ℕ

unfoldable pub aggregate : ℕ → List (GroupKey × ℕ) → ℕ → ℕ → Aggregated
unfolding group_line count_chars
aggregate reservation [] used other = record { shown = []; used = used; other_count = other }
aggregate reservation (g ∷ gs) used other =
    let needed = saturating_add used (count_chars (group_line g) + 1) in
    let fitted = aggregate reservation gs needed other in
    let folded = aggregate reservation gs used (saturating_add other g.1) in
    if leb needed reservation then record fitted { shown = g ∷ fitted.shown } else folded

unfoldable pub other_line : ℕ → Text
unfolding show format
other_line count = format (codes "- 其他 | action=omit | count=" ∷ show count ∷ [])

-- The catch-all row, where it is needed.
unfoldable pub other_rows : ℕ → ℕ → ℕ → Result Text (List Text)
unfolding other_line count_chars
other_rows reservation used other =
    if ltb 0 other
    then (if leb (saturating_add used (count_chars (other_line other) + 1)) reservation
        then ok (other_line other ∷ [])
        else err
            (budget_model_mismatch (codes "mandatory omitted catch-all exceeds its reservation")))
    else ok []

-- The section of the lines that were pushed, in their order.
unfoldable pub summary_text : ℕ → List Text → List (GroupKey × ℕ) → List Text → Text
summary_text count details shown other =
    join_lines (header_lines count ++ (details ++ (map group_line shown ++ other)))

-- The last test of the section alone.
unfoldable pub checked_section : ℕ → Text → Result Text Text
checked_section reservation section = do
  ensure (leb (count_chars section) reservation)
      (budget_model_mismatch (codes "omitted summary exceeds its reservation"))
  ok section

-- What the header uses.
unfoldable pub header_used : ℕ → ℕ
header_used count = count_chars (join_lines (header_lines count)) + section_separator_chars

-- `append_omitted_summary`, up to the test against the global budget.
unfoldable pub summary_section : ℕ → List OmittedRow → Result Text Text
summary_section reservation omitted = do
  details ← detail_rows reservation (header_used (length omitted)) omitted
  let groups = aggregate reservation (groups_of omitted []) details.1 0
  other ← other_rows reservation groups.used groups.other_count
  checked_section reservation (summary_text (length omitted) details.0 groups.shown other)
