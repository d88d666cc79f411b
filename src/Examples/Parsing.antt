-- ===== src/Examples/Parsing.antt =====
-- The parse plan of two files.
use mathlib.Core.List.{Permᴰ, Pairwise-pair}
use mathlib.Core.HLevel.{¬_prop}
use ai_daily_report.Prelude.{
  ℕ, ◌≡◌, ◌≢◌, refl, none, List, [], ◌∷◌, map, Text, codes, ok, arith, All,
}
use ai_daily_report.Prelude.Order.{text_cmp}
use ai_daily_report.Prelude.Sorting.{IsSorted, HasDistinctKeys, sort_by_key}
use ai_daily_report.Contract.Profile.{validate_execution}
use ai_daily_report.Admission.Routing.{classify_candidate_v2}
use ai_daily_report.Planner.Classifier.{
  DiscoveredFileOut, ParserRoute, ClassificationError, classify_candidate,
}
use ai_daily_report.Planner.Mirror.{mirrored, classify_candidate_v2-classify_candidate}
use ai_daily_report.Planner.Plan.{
  PlanAction, plan_candidates, path_of, IsPlanned, plan_candidates_complete,
  plan_candidates-canonical,
}
use ai_daily_report.Examples.Samples.{daily_settings, report_pdf}

abbrev found : Text → Text → DiscoveredFileOut
found path extension = record {
  file_identity = path;
  path = path;
  extension = extension;
  modified_at = codes "2026-01-01T00:00:00Z";
  size_bytes = 2048;
  source_version = codes "v";
  source_guard_kind = none;
  source_guard_sha256 = none;
}

abbrev both : List DiscoveredFileOut
both = found (codes "report.pdf") (codes ".pdf") ∷ found (codes "a.dwg") (codes ".dwg") ∷ []

-- The PDF has a timeout of its own.
both_planned :
    map {B = PlanAction × ℕ} (λ p. (p.action, p.timeout_ms)) (plan_candidates both daily_settings)
    ≡ (PlanAction.reject ClassificationError.unsupported_extension, 30000)
      ∷ (PlanAction.parse ParserRoute.pdf, 60000)
      ∷ []
unfolding plan_candidates classify_candidate sort_by_key text_cmp
both_planned = refl

execution_valid : validate_execution daily_settings.execution ≡ ok tt
unfolding validate_execution
execution_valid = refl

plan_candidates_complete_example :
    Permᴰ (map (λ p. p.file) (plan_candidates both daily_settings)) both
    × IsSorted text_cmp path_of (map (λ p. p.file) (plan_candidates both daily_settings))
    × All (IsPlanned daily_settings) (plan_candidates both daily_settings)
plan_candidates_complete_example = plan_candidates_complete daily_settings both execution_valid

paths_differ : codes "report.pdf" ≢ codes "a.dwg"
paths_differ e = ground arith

path_keys_differ : HasDistinctKeys text_cmp path_of both
path_keys_differ = (Pairwise-pair (λ _ _. ¬_prop)).1 paths_differ

plan_candidates-canonical_example :
    plan_candidates both daily_settings
    ≡ plan_candidates
        (found (codes "a.dwg") (codes ".dwg") ∷ found (codes "report.pdf") (codes ".pdf") ∷ [])
        daily_settings
plan_candidates-canonical_example =
    plan_candidates-canonical daily_settings {files = both}
      {files' = found (codes "a.dwg") (codes ".dwg")
        ∷ found (codes "report.pdf") (codes ".pdf")
        ∷ []}
      (Permᴰ.swap refl refl) path_keys_differ

classify_candidate_v2-classify_candidate_example :
    classify_candidate_v2 report_pdf daily_settings
    ≡ mirrored (classify_candidate (found (codes "report.pdf") (codes ".pdf")) daily_settings)
classify_candidate_v2-classify_candidate_example =
    classify_candidate_v2-classify_candidate (found (codes "report.pdf") (codes ".pdf")) report_pdf
      daily_settings refl refl refl
