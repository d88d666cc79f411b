-- ===== src/Planner/Classifier.antt =====
-- rust/scanner_core/src/classifier.rs: the parser route of a discovered file.
use ai_daily_report.Prelude.{
  ℕ, Option, [], ◌∷◌, Text, codes, ltb, contains, text_eq, if◌then◌else◌, Result, ok, err,
}
use ai_daily_report.Contract.Profile.{NormalizedScannerSettings}

-- `DiscoveredFileOut` of rust/discovery/src/lib.rs.
pub record DiscoveredFileOut : Type 0 where
  pub file_identity : Text
  pub path : Text
  pub extension : Text
  pub modified_at : Text
  pub size_bytes : ℕ
  pub source_version : Text
  pub source_guard_kind : Option Text
  pub source_guard_sha256 : Option Text

pub data ParserRoute : Type 0 where
  light_text rust_office rust_xlsx pdf rust_xls rust_legacy_office : ParserRoute

unfoldable pub backend : ParserRoute → Text
backend ParserRoute.light_text = codes "light_text_v2"
backend ParserRoute.rust_office = codes "rust_office_oxide_v2"
backend ParserRoute.rust_xlsx = codes "rust_xlsx_bounded_v2"
backend ParserRoute.pdf = codes "rust_pdfium_v3"
backend ParserRoute.rust_xls = codes "rust_xls_calamine_v3"
backend ParserRoute.rust_legacy_office = codes "rust_legacy_office_v3"

unfoldable pub worker_lane : ParserRoute → Text
worker_lane ParserRoute.light_text = codes "rust_core"
worker_lane ParserRoute.rust_office = codes "rust_office_process_v3"
worker_lane ParserRoute.rust_xlsx = codes "rust_office_process_v3"
worker_lane ParserRoute.rust_xls = codes "rust_office_process_v3"
worker_lane ParserRoute.rust_legacy_office = codes "rust_office_process_v3"
worker_lane ParserRoute.pdf = codes "rust_pdf_process_v3"

pub data ClassificationError : Type 0 where
  file_too_large unsupported_extension unsupported_backend legacy_extension_disabled :
      ClassificationError

unfoldable pub classify_modern_office : Text → ParserRoute → Result ClassificationError ParserRoute
classify_modern_office primary_backend rust_route =
    if text_eq primary_backend (codes "rust_office_oxide_v2")
    then ok rust_route
    else err ClassificationError.unsupported_backend

-- The `match` on the extension, arm by arm.
unfoldable pub classify_extension :
    Text → NormalizedScannerSettings → Result ClassificationError ParserRoute
unfolding classify_modern_office
classify_extension extension s =
    if contains (codes ".txt" ∷ codes ".md" ∷ codes ".csv" ∷ codes ".json" ∷ codes ".log" ∷ [])
      extension
    then ok ParserRoute.light_text
    else if text_eq extension (codes ".xlsx")
    then classify_modern_office s.parse.office.primary_backend ParserRoute.rust_xlsx
    else if contains (codes ".docx" ∷ codes ".pptx" ∷ []) extension
    then classify_modern_office s.parse.office.primary_backend ParserRoute.rust_office
    else if text_eq extension (codes ".xls")
    then ok ParserRoute.rust_xls
    else if text_eq extension (codes ".pdf")
    then (if text_eq s.parse.pdf.backend (codes "rust_pdfium_v3")
        then ok ParserRoute.pdf
        else err ClassificationError.unsupported_backend)
    else if contains (codes ".doc" ∷ codes ".ppt" ∷ []) extension
    then (if s.parse.office.legacy_extensions_enabled
        then ok ParserRoute.rust_legacy_office
        else err ClassificationError.legacy_extension_disabled)
    else err ClassificationError.unsupported_extension

unfoldable pub classify_candidate :
    DiscoveredFileOut → NormalizedScannerSettings → Result ClassificationError ParserRoute
unfolding classify_extension
classify_candidate file s =
    if ltb s.execution.max_file_size_bytes file.size_bytes
    then err ClassificationError.file_too_large
    else if contains s.discovery.allowed_extensions file.extension
    then classify_extension file.extension s
    else err ClassificationError.unsupported_extension
