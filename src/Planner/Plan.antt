-- ===== src/Planner/Plan.antt =====
-- rust/scanner_core/src/planner.rs: the parse plan. The map of timeouts by extension is the list of
-- its entries.
use mathlib.Core.List.{Permᴰ}
use ai_daily_report.Prelude.{
  ℕ, ◌≤◌, ◌≡◌, refl, ap, arith, codes, List, [], ◌∷◌, map, Text, text_eq, if◌then◌else◌, Result, ok,
  err, All, ◌>>◌,
}
use ai_daily_report.Prelude.Order.{text_cmp, text_cmp-IsOrder}
use ai_daily_report.Prelude.Sorting.{
  sort_by_key, sort_by_key-perm, sort_by_key-IsSorted, sort_by_key-canonical, IsSorted,
  HasDistinctKeys,
}
use ai_daily_report.Contract.Checks.{Check, check_each, require_range, require_extension}
use ai_daily_report.Contract.Profile.{NormalizedScannerSettings, validate_execution}
use ai_daily_report.Planner.Classifier.{
  DiscoveredFileOut, ParserRoute, ClassificationError, classify_candidate,
}

pub data PlanAction : Type 0 where
  parse : ParserRoute → PlanAction
  reject : ClassificationError → PlanAction

pub record PlannedFile : Type 0 where
  pub file : DiscoveredFileOut
  pub action : PlanAction
  pub timeout_ms : ℕ

-- `BTreeMap::get`, with the default of the caller.
abbrev pub get_or : Text → ℕ → List (Text × ℕ) → ℕ
get_or key default [] = default
get_or key default ((k, v) ∷ entries) = if text_eq key k then v else get_or key default entries

abbrev pub action_of : Result ClassificationError ParserRoute → PlanAction
action_of (ok route) = PlanAction.parse route
action_of (err error) = PlanAction.reject error

-- The closure of `map`.
unfoldable pub plan_file : NormalizedScannerSettings → DiscoveredFileOut → PlannedFile
plan_file s file = record {
  file = file;
  action = action_of (classify_candidate file s);
  timeout_ms =
      get_or file.extension s.execution.file_timeout_ms s.execution.file_timeout_by_extension_ms;
}

abbrev pub path_of : DiscoveredFileOut → Text
path_of file = file.path

unfoldable pub plan_candidates :
    List DiscoveredFileOut → NormalizedScannerSettings → List PlannedFile
unfolding plan_file
plan_candidates files s = map (plan_file s) (sort_by_key text_cmp path_of files)

-- A plan classifies its own file and gives it between a second and an hour.
pub record IsPlanned (s : NormalizedScannerSettings) (p : PlannedFile) : Type 0 where
  pub action : p.action ≡ action_of (classify_candidate p.file s)
  pub timeout : (1000 ≤ p.timeout_ms) × (p.timeout_ms ≤ 3600000)

get_or_bounds :
    (key : Text) (default : ℕ) (entries : List (Text × ℕ)) (check : Text → Check) (field : Text)
    → (1000 ≤ default) × (default ≤ 3600000)
    → check_each (λ entry. check entry.0 >> require_range entry.1 1000 3600000 field) entries
      ≡ ok tt
    → (1000 ≤ get_or key default entries) × (get_or key default entries ≤ 3600000)
unfolding require_range
get_or_bounds key default [] check field d h = d
get_or_bounds key default ((k, v) ∷ entries) check field d h =
    ground (arith, get_or_bounds key default entries check field d)

timeout_bounds :
    (s : NormalizedScannerSettings) (file : DiscoveredFileOut)
    → validate_execution s.execution ≡ ok tt
    → let timeout = (plan_file s file).timeout_ms in (1000 ≤ timeout) × (timeout ≤ 3600000)
unfolding plan_file validate_execution require_range
timeout_bounds s file h =
    get_or_bounds file.extension s.execution.file_timeout_ms
      s.execution.file_timeout_by_extension_ms
      (λ key. require_extension key (codes "file_timeout_by_extension_ms key"))
      (codes "file_timeout_by_extension_ms value") (ground arith) (ground arith)

plan_file-IsPlanned :
    (s : NormalizedScannerSettings) (files : List DiscoveredFileOut)
    → validate_execution s.execution ≡ ok tt
    → All (IsPlanned s) (map (plan_file s) files)
plan_file-IsPlanned s [] h = tt
plan_file-IsPlanned s (file ∷ files) h = (
  record { action = unfold plan_file in refl; timeout = timeout_bounds s file h },
  plan_file-IsPlanned s files h,
)

files_of :
    (s : NormalizedScannerSettings) (files : List DiscoveredFileOut)
    → map (λ p. p.file) (map (plan_file s) files) ≡ files
unfolding plan_file
files_of s [] = refl
files_of s (file ∷ files) = ap (◌∷◌ file) (files_of s files)

-- Under valid execution settings, the parse plan has one entry for each file, in the order of the
-- paths; each entry has the classifier's answer for its file, and a timeout between a second and an
-- hour.
pub plan_candidates_complete :
    (s : NormalizedScannerSettings) (files : List DiscoveredFileOut)
    → validate_execution s.execution ≡ ok tt
    → let plans = plan_candidates files s in
      Permᴰ (map (λ p. p.file) plans) files
      × IsSorted text_cmp path_of (map (λ p. p.file) plans)
      × All (IsPlanned s) plans
unfolding plan_candidates
plan_candidates_complete s files h =
    let sorted = sort_by_key text_cmp path_of files in
    (
      rw (files_of s sorted) (sort_by_key-perm text_cmp path_of files),
      rw (files_of s sorted) (sort_by_key-IsSorted text_cmp-IsOrder path_of files),
      plan_file-IsPlanned s sorted h,
    )

-- Files with distinct paths get the same parse plan in whatever order discovery found them.
pub plan_candidates-canonical :
    (s : NormalizedScannerSettings) {files files' : List DiscoveredFileOut}
    → Permᴰ files files'
    → HasDistinctKeys text_cmp path_of files
    → plan_candidates files s ≡ plan_candidates files' s
unfolding plan_candidates
plan_candidates-canonical s p distinct =
    ap (map (plan_file s)) (sort_by_key-canonical text_cmp-IsOrder path_of p distinct)
