-- ===== src/Planner/Mirror.antt =====
-- The two classifiers of the program agree.
use ai_daily_report.Prelude.{
  ◌≡◌, refl, true, arith, contains, Text, Result, ok, err, ltb, Bool-cases, inl, inr,
}
use ai_daily_report.Contract.Profile.{NormalizedScannerSettings}
use ai_daily_report.Budget.Model.{RouteKind}
use ai_daily_report.Admission.Types.{PlanCandidate, NotParsedReason, RejectReason}
use ai_daily_report.Admission.Routing.{RouteDecision, classify_candidate_v2, route_for}
use ai_daily_report.Planner.Classifier.{
  DiscoveredFileOut, ParserRoute, ClassificationError, classify_candidate, classify_extension,
}

abbrev pub kind_of : ParserRoute → RouteKind
kind_of ParserRoute.light_text = RouteKind.light_text
kind_of ParserRoute.rust_office = RouteKind.rust_office
kind_of ParserRoute.rust_xlsx = RouteKind.rust_xlsx
kind_of ParserRoute.pdf = RouteKind.pdf
kind_of ParserRoute.rust_xls = RouteKind.rust_xls
kind_of ParserRoute.rust_legacy_office = RouteKind.rust_legacy_office

-- What the admission plans make of an answer of the first classifier.
abbrev pub mirrored : Result ClassificationError ParserRoute → RouteDecision
mirrored (ok r) = RouteDecision.route (kind_of r)
mirrored (err ClassificationError.file_too_large) =
    RouteDecision.policy_not_parsed NotParsedReason.file_size_policy
mirrored (err ClassificationError.legacy_extension_disabled) =
    RouteDecision.policy_not_parsed NotParsedReason.legacy_extension_disabled
mirrored (err ClassificationError.unsupported_extension) =
    RouteDecision.invariant_reject RejectReason.profile_route_invariant
mirrored (err ClassificationError.unsupported_backend) =
    RouteDecision.invariant_reject RejectReason.profile_route_invariant

route_for-mirrored :
    (extension : Text) (s : NormalizedScannerSettings)
    → route_for extension s ≡ mirrored (classify_extension extension s)
unfolding route_for classify_extension
route_for-mirrored extension s = ground arith

-- For a file of an allowed extension, the classifier of the admission plans answers as the one of
-- the parse plan does: the same route, the same policy exclusions, and an invariant reject for the
-- rest.
pub classify_candidate_v2-classify_candidate :
    (file : DiscoveredFileOut) (plan : PlanCandidate) (s : NormalizedScannerSettings)
    → plan.extension ≡ file.extension
    → plan.size_bytes ≡ file.size_bytes
    → contains s.discovery.allowed_extensions file.extension ≡ true
    → classify_candidate_v2 plan s ≡ mirrored (classify_candidate file s)
unfolding classify_candidate_v2 classify_candidate
classify_candidate_v2-classify_candidate file plan s e z allowed =
    rw (e, z, allowed)
      (elim (Bool-cases (ltb s.execution.max_file_size_bytes file.size_bytes)) [
        | inl large ↦ rw large refl
        | inr small ↦ rw small (route_for-mirrored file.extension s)
      ])
