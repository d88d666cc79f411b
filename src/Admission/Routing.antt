-- ===== src/Admission/Routing.antt =====
-- rust/scanner_core/src/admission.rs: the route of a single file, decided before any I/O.
use ai_daily_report.Prelude.{
  Option, none, some, List, [], ◌∷◌, Text, codes, ltb, if◌then◌else◌, contains, text_eq,
}
use ai_daily_report.Contract.Profile.{NormalizedScannerSettings}
use ai_daily_report.Budget.Model.{RouteKind}
use ai_daily_report.Admission.Types.{NotParsedReason, RejectReason, PlanCandidate}

pub data RouteDecision : Type 0 where
  route : RouteKind → RouteDecision
  policy_not_parsed : NotParsedReason → RouteDecision
  invariant_reject : RejectReason → RouteDecision

abbrev pub light_extensions : List Text
light_extensions = codes ".txt" ∷ codes ".md" ∷ codes ".csv" ∷ codes ".json" ∷ codes ".log" ∷ []

unfoldable pub office_route : Text → RouteKind → Option RouteKind
office_route primary_backend rust_route =
    if text_eq primary_backend (codes "rust_office_oxide_v2") then some rust_route else none

-- `None` is an invariant reject.
abbrev route_or_reject : Option RouteKind → RouteDecision
route_or_reject none = RouteDecision.invariant_reject RejectReason.profile_route_invariant
route_or_reject (some r) = RouteDecision.route r

-- The `match` on the extension, arm by arm.
unfoldable pub route_for : Text → NormalizedScannerSettings → RouteDecision
unfolding office_route
route_for extension s =
    if contains light_extensions extension
    then RouteDecision.route RouteKind.light_text
    else if text_eq extension (codes ".xlsx")
    then route_or_reject (office_route s.parse.office.primary_backend RouteKind.rust_xlsx)
    else if contains (codes ".docx" ∷ codes ".pptx" ∷ []) extension
    then route_or_reject (office_route s.parse.office.primary_backend RouteKind.rust_office)
    else if text_eq extension (codes ".xls")
    then RouteDecision.route RouteKind.rust_xls
    else if text_eq extension (codes ".pdf")
    then (if text_eq s.parse.pdf.backend (codes "rust_pdfium_v3")
        then RouteDecision.route RouteKind.pdf
        else RouteDecision.invariant_reject RejectReason.profile_route_invariant)
    else if contains (codes ".doc" ∷ codes ".ppt" ∷ []) extension
    then (if s.parse.office.legacy_extensions_enabled
        then RouteDecision.route RouteKind.rust_legacy_office
        else RouteDecision.policy_not_parsed NotParsedReason.legacy_extension_disabled)
    else RouteDecision.invariant_reject RejectReason.profile_route_invariant

unfoldable pub classify_candidate_v2 : PlanCandidate → NormalizedScannerSettings → RouteDecision
unfolding route_for
classify_candidate_v2 file s =
    if ltb s.execution.max_file_size_bytes file.size_bytes
    then RouteDecision.policy_not_parsed NotParsedReason.file_size_policy
    else route_for file.extension s
