-- ===== src/Rendering/Excerpt.antt =====
-- rust/scanner_core/src/compressor.rs: the excerpt of a file that is over its budget. `-` stops at 0
-- where the source would panic; Cuts shows that no subtraction goes below 0.
use ai_daily_report.Prelude.{
  ℕ, suc, ◌-◌, ◌*◌, ◌/◌, max, Option, none, some, [], ◌∷◌, ◌++◌, Text, codes, length, take, drop,
  ltb, ◌==◌, if◌then◌else◌, show,
}

abbrev pub omitted_marker_reserve : ℕ
omitted_marker_reserve = 64

abbrev pub head_ratio_per_mille : ℕ
head_ratio_per_mille = 400

unfoldable pub omitted_marker : Text → ℕ → Text
unfolding show
omitted_marker prefix omitted =
    codes "…（已省略" ++ (prefix ++ (codes "约 " ++ (show omitted ++ codes " 字符）…")))

-- One behind the last newline: `filter`, `map` and `last` over the enumerated characters.
unfoldable pub last_newline : ℕ → Text → Option ℕ → Option ℕ
last_newline index [] found = found
last_newline index (c ∷ t) found =
    last_newline (suc index) t (if c == b'\n' then some (suc index) else found)

abbrev pub unwrap_or : Option ℕ → ℕ → ℕ
unwrap_or none d = d
unwrap_or (some n) d = n

unfoldable pub newline_boundary_at_or_before : Text → ℕ → ℕ
unfolding last_newline
newline_boundary_at_or_before content position =
    unwrap_or (last_newline 0 (take position content) none) position

-- One behind the first newline.
unfoldable pub first_newline : ℕ → Text → Option ℕ
first_newline index [] = none
first_newline index (c ∷ t) = if c == b'\n' then some (suc index) else first_newline (suc index) t

unfoldable pub newline_boundary_at_or_after : Text → ℕ → ℕ
unfolding first_newline
newline_boundary_at_or_after content position =
    unwrap_or (first_newline position (drop position content)) position

-- The room beside the marker.
abbrev pub available : ℕ → ℕ
available limit = max (limit - omitted_marker_reserve) 1

abbrev pub head_budget : ℕ → ℕ
head_budget limit = available limit * head_ratio_per_mille / 1000

abbrev pub tail_budget : ℕ → ℕ
tail_budget limit = available limit - head_budget limit

unfoldable pub head_end : Text → ℕ → ℕ
unfolding newline_boundary_at_or_before
head_end content limit = newline_boundary_at_or_before content (head_budget limit)

unfoldable pub tail_start : Text → ℕ → ℕ
unfolding newline_boundary_at_or_after
tail_start content limit = newline_boundary_at_or_after content (length content - tail_budget limit)

-- A head, a marker and a tail, or the first characters where there is no room for a marker.
unfoldable pub take_head_and_tail : Text → ℕ → Text
unfolding head_end tail_start omitted_marker
take_head_and_tail content limit =
    let head = take (head_end content limit) content in
    let tail = drop (tail_start content limit) content in
    if ltb limit omitted_marker_reserve
    then take limit content
    else head ++ (omitted_marker (codes "中部") (length content - length head - length tail) ++ tail)

unfoldable pub take_log_tail : Text → ℕ → Text
unfolding omitted_marker
take_log_tail content limit =
    let tail = drop (length content - available limit) content in
    if ltb limit omitted_marker_reserve
    then take limit content
    else omitted_marker (codes "头部") (length content - length tail) ++ tail
