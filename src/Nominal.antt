-- ===== src/Nominal.antt =====
-- rust/scanner_core/src/nominal.rs: the one sort key of planning, quota allocation, decisions and
-- presentation. `str::to_lowercase`, the Unicode table of the standard library, is a parameter of
-- all that sorts: nothing below rests on a fact about it.
pub mod Order
use ai_daily_report.Prelude.{
  ℕ, Bool, true, false, List, [], ◌∷◌, ◌++◌, map, Text, codes, Ordering, compare, is_empty, ◌&&◌,
  ◌||◌, ◌==◌, if◌then◌else◌, contains, has_infix,
}
use ai_daily_report.Prelude.Order.{then_cmp, text_cmp}

abbrev pub office_or_pdf_extensions : List Text
office_or_pdf_extensions =
    codes ".doc"
    ∷ codes ".docx"
    ∷ codes ".pdf"
    ∷ codes ".ppt"
    ∷ codes ".pptx"
    ∷ codes ".xls"
    ∷ codes ".xlsm"
    ∷ codes ".xlsx"
    ∷ []

abbrev pub text_extensions : List Text
text_extensions = codes ".md" ∷ codes ".txt" ∷ []

abbrev pub backslash : ℕ
backslash = b'\\'

-- `str::replace` of one character by another.
unfoldable pub replace_char : ℕ → ℕ → Text → Text
replace_char from to = map (λ c. if c == from then to else c)

pub trim_start : ℕ → Text → Text
trim_start c [] = []
trim_start c (x ∷ xs) = if x == c then trim_start c xs else x ∷ xs

pub trim_end : ℕ → Text → Text
trim_end c [] = []
trim_end c (x ∷ xs) = let rest = trim_end c xs in if is_empty rest && x == c then [] else x ∷ rest

-- `str::trim_matches`
unfoldable pub trim_matches : ℕ → Text → Text
unfolding trim_start trim_end
trim_matches c t = trim_end c (trim_start c t)

unfoldable pub normalize_lower : (Text → Text) → Text → Text
unfolding replace_char trim_matches
normalize_lower to_lowercase path =
    to_lowercase (trim_matches backslash (replace_char b'/' backslash path))

unfoldable pub priority_for : Text → Text → ℕ
priority_for lower_path extension =
    let path_key = backslash ∷ lower_path ++ backslash ∷ [] in
    if has_infix (codes "\\.pytest_cache\\") path_key
      || has_infix (codes "\\data\\benchmarks\\") path_key
    then 70
    else if has_infix (codes "\\logs\\") path_key
    then 60
    else if contains office_or_pdf_extensions extension
    then 20
    else if contains text_extensions extension
    then 30
    else 50

pub record NominalKey : Type 0 where
  pub priority : ℕ
  pub lower_path : Text
  pub path : Text
  pub file_identity : Text

-- `NominalKey::new`
unfoldable pub nominal_key : (Text → Text) → Text → Text → Text → NominalKey
unfolding normalize_lower priority_for
nominal_key to_lowercase relative_path extension file_identity = record {
  priority = priority_for (normalize_lower to_lowercase relative_path) extension;
  lower_path = to_lowercase relative_path;
  path = relative_path;
  file_identity = file_identity;
}

unfoldable pub nominal_rank : (Text → Text) → Text → Text → ℕ × Text × Text × Text
unfolding normalize_lower priority_for
nominal_rank to_lowercase relative_path extension = (
  priority_for (normalize_lower to_lowercase relative_path) extension,
  to_lowercase relative_path,
  relative_path,
  [],
)

-- The derived `Ord` of `NominalKey`: field by field, in the order of declaration.
unfoldable pub key_cmp : NominalKey → NominalKey → Ordering
key_cmp a b = then_cmp (compare a.priority b.priority) (
    then_cmp (text_cmp a.lower_path b.lower_path)
      (then_cmp (text_cmp a.path b.path) (text_cmp a.file_identity b.file_identity)))
