-- ===== src/Contract/Profile.antt =====
-- rust/scanner_contract/src/lib.rs: the normalized scanner settings and their validation. A
-- `BTreeMap` is the list of its entries.
use ai_daily_report.Prelude.{
  ℕ, Bool, true, not, List, [], ◌∷◌, Text, codes, length, leb, is_empty, ◌&&◌, ◌==◌, all, contains,
  text_eq, ensure, ◌>>◌,
}
use ai_daily_report.Contract.Types.{ReportMode}
use ai_daily_report.Contract.Checks.{
  Check, check_each, require_const, require_non_empty, require_range, require_extension,
  require_relative_path, require_sorted_unique, validate_extensions, validate_strings,
}

pub record DiscoveryProfile : Type 0 where
  pub allowed_extensions : List Text
  pub ignored_patterns : List Text
  pub excluded_dirs : List Text
  pub follow_symlinks : Bool
  pub cloud_files_policy : Text

unfoldable pub validate_discovery : DiscoveryProfile → Check
unfolding require_const validate_extensions validate_strings
validate_discovery p = do
  require_const p.cloud_files_policy (codes "local_only") (codes "cloud_files_policy")
  validate_extensions p.allowed_extensions (codes "allowed_extensions") true
  validate_strings p.ignored_patterns (codes "ignored_patterns") true
  validate_strings p.excluded_dirs (codes "excluded_dirs") true

pub record ExecutionProfile : Type 0 where
  pub max_workers : ℕ
  pub max_file_size_bytes : ℕ
  pub discovery_timeout_ms : ℕ
  pub file_timeout_ms : ℕ
  pub file_timeout_by_extension_ms : List (Text × ℕ)

unfoldable pub validate_execution : ExecutionProfile → Check
unfolding require_range require_extension
validate_execution p = do
  require_range p.max_workers 1 64 (codes "max_workers")
  require_range p.max_file_size_bytes 1 4294967296 (codes "max_file_size_bytes")
  require_range p.discovery_timeout_ms 1000 3600000 (codes "discovery_timeout_ms")
  require_range p.file_timeout_ms 1000 3600000 (codes "file_timeout_ms")
  ensure (leb (length p.file_timeout_by_extension_ms) 256)
      (codes "file_timeout_by_extension_ms has too many entries")
  check_each
      (λ entry.
        require_extension entry.0 (codes "file_timeout_by_extension_ms key")
        >> require_range entry.1 1000 3600000 (codes "file_timeout_by_extension_ms value"))
      p.file_timeout_by_extension_ms

pub record TextParseProfile : Type 0 where
  pub csv_encodings : List Text
  pub backend : Text
  pub read_head_bytes : ℕ
  pub read_tail_bytes : ℕ
  pub max_chars : ℕ
  pub excerpt_max_chars : ℕ

distinct : List Text → Bool
distinct [] = true
distinct (x ∷ xs) = not (contains xs x) && distinct xs

unfoldable pub validate_csv_encodings : List Text → Check
unfolding distinct
validate_csv_encodings encodings =
    ensure
      (not (is_empty encodings)
        && leb (length encodings) 3
        && distinct encodings
        && all (contains (codes "utf-8" ∷ codes "utf-8-sig" ∷ codes "gb18030" ∷ [])) encodings)
      (codes "csv_encodings must be a unique explicit allowlist of utf-8, utf-8-sig, gb18030")

unfoldable pub validate_text : TextParseProfile → Check
unfolding require_const require_range validate_csv_encodings
validate_text p = do
  require_const p.backend (codes "light_text_v2") (codes "text.backend")
  validate_csv_encodings p.csv_encodings
  require_range p.read_head_bytes 1 67108864 (codes "read_head_bytes")
  require_range p.read_tail_bytes 1 67108864 (codes "read_tail_bytes")
  require_range p.max_chars 1 10000000 (codes "text.max_chars")
  require_range p.excerpt_max_chars 1 10000000 (codes "text.excerpt_max_chars")

pub record OfficeParseProfile : Type 0 where
  pub primary_backend : Text
  pub legacy_extensions_enabled : Bool
  pub excel_max_sheets : ℕ
  pub excel_max_rows : ℕ
  pub excel_max_columns : ℕ
  pub docx_max_paragraphs : ℕ
  pub docx_max_tables : ℕ
  pub docx_table_max_rows : ℕ
  pub docx_table_max_cols : ℕ
  pub pptx_max_slides : ℕ
  pub pptx_include_notes : Bool
  pub document_excerpt_max_chars : ℕ

unfoldable pub validate_office : OfficeParseProfile → Check
unfolding require_non_empty require_range
validate_office p = do
  require_non_empty p.primary_backend 1024 (codes "primary_backend")
  require_range p.excel_max_sheets 1 1024 (codes "excel_max_sheets")
  require_range p.excel_max_rows 1 1048576 (codes "excel_max_rows")
  require_range p.excel_max_columns 1 16384 (codes "excel_max_columns")
  require_range p.docx_max_paragraphs 1 1000000 (codes "docx_max_paragraphs")
  require_range p.docx_max_tables 1 100000 (codes "docx_max_tables")
  require_range p.docx_table_max_rows 1 1048576 (codes "docx_table_max_rows")
  require_range p.docx_table_max_cols 1 16384 (codes "docx_table_max_cols")
  require_range p.pptx_max_slides 1 100000 (codes "pptx_max_slides")
  require_range p.document_excerpt_max_chars 1 10000000 (codes "document_excerpt_max_chars")

pub record PdfParseProfile : Type 0 where
  pub selection_policy_version : Text
  pub backend : Text
  pub max_pages : ℕ
  pub excerpt_max_chars : ℕ

abbrev pdf_policies : List Text
pdf_policies = codes "pdf_text_presence_v1" ∷ codes "pdf_text_presence_v2" ∷ []

unfoldable pub validate_pdf : PdfParseProfile → Check
unfolding require_non_empty require_range
validate_pdf p = do
  ensure (contains pdf_policies p.selection_policy_version)
      (codes "unsupported PDF selection policy")
  require_non_empty p.backend 1024 (codes "pdf.backend")
  require_range p.max_pages 1 10000 (codes "pdf.max_pages")
  require_range p.excerpt_max_chars 1 10000000 (codes "pdf.excerpt_max_chars")

pub record ParseProfile : Type 0 where
  pub cache_payload_version : ℕ
  pub excerpt_policy_version : Text
  pub excerpt_priority_paths : List Text
  pub aggregate_max_chars : ℕ
  pub text : TextParseProfile
  pub office : OfficeParseProfile
  pub pdf : PdfParseProfile

unfoldable pub validate_excerpt_priority_paths : List Text → Check
unfolding require_relative_path
validate_excerpt_priority_paths paths = do
  ensure (leb (length paths) 4096) (codes "excerpt_priority_paths contains too many items")
  check_each (λ path. require_relative_path path (codes "excerpt_priority_paths")) paths

abbrev excerpt_policies : List Text
excerpt_policies =
    codes "fair_semantic_v1"
    ∷ codes "fair_semantic_v2"
    ∷ codes "fair_semantic_v3"
    ∷ codes "fair_semantic_v4"
    ∷ codes "fair_semantic_v5"
    ∷ codes "fair_semantic_v6"
    ∷ codes "fair_semantic_v7"
    ∷ codes "fair_semantic_v8"
    ∷ codes "fair_semantic_v9"
    ∷ []

unfoldable pub validate_parse : ParseProfile → Check
unfolding require_range require_sorted_unique validate_excerpt_priority_paths validate_text
    validate_office validate_pdf
validate_parse p = do
  ensure (p.cache_payload_version == 1 && contains excerpt_policies p.excerpt_policy_version)
      (codes "parse evidence policies are unsupported")
  validate_excerpt_priority_paths p.excerpt_priority_paths
  require_sorted_unique p.excerpt_priority_paths (codes "excerpt_priority_paths")
  require_range p.aggregate_max_chars 1 10000000 (codes "aggregate_max_chars")
  validate_text p.text
  validate_office p.office
  validate_pdf p.pdf

pub record ContextProfile : Type 0 where
  pub profile_name : Text
  pub global_max_chars : ℕ
  pub per_file_max_chars : ℕ
  pub small_file_max_bytes : ℕ
  pub medium_file_max_bytes : ℕ
  pub large_file_max_bytes : ℕ
  pub priority_policy_version : Text
  pub compression_policy_version : Text

unfoldable pub validate_context : ContextProfile → Check
unfolding require_range require_const
validate_context p = do
  require_range p.global_max_chars 1 10000000 (codes "global_max_chars")
  require_range p.per_file_max_chars 1 10000000 (codes "per_file_max_chars")
  ensure
      (p.small_file_max_bytes == 65536
        && p.medium_file_max_bytes == 1048576
        && p.large_file_max_bytes == 10485760
        && leb p.per_file_max_chars p.global_max_chars)
      (codes "context thresholds or budgets violate v2")
  require_const p.priority_policy_version (codes "budget_nominal_v2")
      (codes "priority_policy_version")
  require_const p.compression_policy_version (codes "markdown_context_v2")
      (codes "compression_policy_version")

pub record NormalizedScannerSettings : Type 0 where
  pub report_mode : ReportMode
  pub discovery : DiscoveryProfile
  pub execution : ExecutionProfile
  pub parse : ParseProfile
  pub context : ContextProfile
  pub admission_policy_version : Text
  pub classifier_policy_version : Text
  pub max_candidate_files : ℕ
  pub max_pdf_text_extractions : ℕ
  pub max_total_pdf_classification_pages : ℕ
  pub pdf_classification_timeout_ms : ℕ
  pub total_deadline_ms : ℕ
  pub worker_max_requests : ℕ
  pub worker_idle_ttl_ms : ℕ
  pub worker_rss_limit_bytes : ℕ

-- The profile's name, global budget and per-file budget that a report mode expects.
abbrev expected_context : ReportMode → Text × ℕ × ℕ
expected_context ReportMode.daily = (codes "daily_balanced_v1", 500000, 100000)
expected_context ReportMode.weekly = (codes "weekly_balanced_v1", 500000, 100000)
expected_context ReportMode.monthly = (codes "monthly_balanced_v1", 500000, 100000)

unfoldable pub validate_settings : NormalizedScannerSettings → Check
unfolding validate_discovery validate_execution validate_parse validate_context require_range
validate_settings s = do
  validate_discovery s.discovery
  validate_execution s.execution
  validate_parse s.parse
  validate_context s.context
  ensure
      (text_eq s.context.profile_name (expected_context s.report_mode).0
        && s.context.global_max_chars == (expected_context s.report_mode).1
        && s.context.per_file_max_chars == (expected_context s.report_mode).2)
      (codes "report mode and normalized context profile do not match")
  ensure
      (contains (codes "budget_admission_v2" ∷ codes "budget_refill_v3" ∷ [])
        s.admission_policy_version)
      (codes "unsupported admission_policy_version")
  ensure (contains pdf_policies s.classifier_policy_version) (codes "unsupported classifier policy")
  require_range s.max_candidate_files 1 1000000 (codes "max_candidate_files")
  require_range s.max_pdf_text_extractions 0 100000 (codes "max_pdf_text_extractions")
  require_range s.max_total_pdf_classification_pages 0 10000000
      (codes "max_total_pdf_classification_pages")
  require_range s.pdf_classification_timeout_ms 100 60000 (codes "pdf_classification_timeout_ms")
  require_range s.total_deadline_ms 5000 3600000 (codes "total_deadline_ms")
  require_range s.worker_max_requests 1 10000 (codes "worker_max_requests")
  require_range s.worker_idle_ttl_ms 1000 600000 (codes "worker_idle_ttl_ms")
  require_range s.worker_rss_limit_bytes 67108864 8589934592 (codes "worker_rss_limit_bytes")
