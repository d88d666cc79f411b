-- ===== src/Contract/Checks.antt =====
-- rust/scanner_contract/src/lib.rs: the checks of single fields, with their messages.
use ai_daily_report.Prelude.{
  ℕ, Bool, true, false, not, List, [], ◌∷◌, ◌++◌, Text, codes, length, leb, is_empty, ◌&&◌, ◌||◌,
  ◌==◌, if◌then◌else◌, starts_with, any, all, drop, contains, text_eq, show, Result, ok, ensure,
  ◌>>◌,
}
use ai_daily_report.Prelude.Order.{text_cmp}
use ai_daily_report.Prelude.{Ordering}

abbrev pub Check : Type 0
Check = Result Text (Unit {0})

-- `(min..=max).contains(&value)`
abbrev pub in_range : ℕ → ℕ → ℕ → Bool
in_range value lo hi = leb lo value && leb value hi

unfoldable pub require_const : Text → Text → Text → Check
require_const value expected field =
    ensure (text_eq value expected) (field ++ codes " must equal " ++ expected)

unfoldable pub require_non_empty : Text → ℕ → Text → Check
require_non_empty value max field =
    ensure (in_range (length value) 1 max) (field ++ codes " length must be 1..=" ++ show max)

unfoldable pub require_range : ℕ → ℕ → ℕ → Text → Check
require_range value lo hi field =
    ensure (in_range value lo hi)
      (field ++ codes " must be in " ++ show lo ++ codes "..=" ++ show hi)

abbrev pub is_ascii_uppercase : ℕ → Bool
is_ascii_uppercase c = leb b'A' c && leb c b'Z'

abbrev pub is_ascii_lowercase : ℕ → Bool
is_ascii_lowercase c = leb b'a' c && leb c b'z'

abbrev pub is_ascii_alphabetic : ℕ → Bool
is_ascii_alphabetic c = is_ascii_lowercase c || is_ascii_uppercase c

abbrev pub is_ascii_digit : ℕ → Bool
is_ascii_digit c = leb b'0' c && leb c b'9'

abbrev pub is_separator : ℕ → Bool
is_separator c = c == b'\\' || c == b'/'

-- The bytes `X:` at the start. A character outside ASCII takes several bytes, none of them a letter
-- or a colon, so the test on characters is the test on bytes.
abbrev pub drive_prefixed : Text → Bool
drive_prefixed (a ∷ b ∷ t) = is_ascii_alphabetic a && b == b':'
drive_prefixed _ = false

abbrev pub drive_rooted : Text → Bool
drive_rooted (a ∷ b ∷ c ∷ t) = is_ascii_alphabetic a && b == b':' && is_separator c
drive_rooted _ = false

unfoldable pub is_absolute_path : Text → Bool
is_absolute_path value =
    (starts_with (codes "/") value || starts_with (codes "\\\\") value || drive_rooted value)
    && not (any (λ c. c == 0) value)
    && leb (length value) 32767

unfoldable pub require_absolute_path : Text → Text → Check
unfolding is_absolute_path
require_absolute_path value field =
    ensure (is_absolute_path value) (field ++ codes " must be an absolute path")

-- `value.split(['/', '\\'])`: the components between separators, the current one reversed.
split_path : Text → Text → List Text
split_path [] component = component ∷ []
split_path (c ∷ t) component =
    if is_separator c then component ∷ split_path t [] else split_path t (component ++ c ∷ [])

unfoldable pub is_relative_path : Text → Bool
unfolding split_path
is_relative_path value =
    let rooted =
      starts_with (codes "/") value || starts_with (codes "\\") value || drive_prefixed value in
    let escapes = contains (split_path value []) (codes "..") in
    not (is_empty value) && leb (length value) 32767 && not rooted && not escapes

unfoldable pub require_relative_path : Text → Text → Check
unfolding is_relative_path
require_relative_path value field =
    ensure (is_relative_path value) (field ++ codes " must be a safe relative path")

unfoldable pub is_extension : Text → Bool
is_extension value =
    in_range (length value) 2 32
    && starts_with (codes ".") value
    && all (λ c. not (is_ascii_uppercase c) && not (is_separator c || c == b':' || c == 0))
        (drop 1 value)

unfoldable pub require_extension : Text → Text → Check
unfolding is_extension
require_extension value field =
    ensure (is_extension value) (field ++ codes " must be a lowercase extension")

-- `values.windows(2).all(|pair| pair[0] < pair[1])`
abbrev is_lt : Ordering → Bool
is_lt Ordering.lt = true
is_lt _ = false

ascending : List Text → Bool
ascending (a ∷ b ∷ rest) = is_lt (text_cmp a b) && ascending (b ∷ rest)
ascending _ = true

unfoldable pub require_sorted_unique : List Text → Text → Check
unfolding ascending
require_sorted_unique values field =
    ensure (ascending values) (field ++ codes " must be sorted and unique")

-- `for value in values { check(value)?; }`
abbrev pub check_each {ℓ} : {A : Type ℓ} → (A → Check) → List A → Check
check_each check [] = ok tt
check_each check (x ∷ xs) = check x >> check_each check xs

abbrev pub check_if : Bool → Check → Check
check_if true check = check
check_if false check = ok tt

unfoldable pub validate_extensions : List Text → Text → Bool → Check
unfolding require_extension require_sorted_unique
validate_extensions values field require_unique = do
  ensure (leb (length values) 256) (field ++ codes " contains too many items")
  check_each (λ value. require_extension value field) values
  check_if require_unique (require_sorted_unique values field)

unfoldable pub validate_strings : List Text → Text → Bool → Check
unfolding require_non_empty require_sorted_unique
validate_strings values field require_unique = do
  ensure (leb (length values) 256) (field ++ codes " contains too many items")
  check_each (λ value. require_non_empty value 1024 field) values
  check_if require_unique (require_sorted_unique values field)
