-- ===== src/Examples/Samples.antt =====
-- A daily profile, a few files, and a lowercase function for ASCII.
use ai_daily_report.Prelude.{◌+◌, true, false, none, some, [], ◌∷◌, map, Text, codes, if◌then◌else◌}
use ai_daily_report.Contract.Types.{ReportMode, SourceGuardKind, PdfClassificationStatus}
use ai_daily_report.Contract.Checks.{is_ascii_uppercase}
use ai_daily_report.Contract.Profile.{ContextProfile, NormalizedScannerSettings}
use ai_daily_report.Budget.Model.{ContextBudgetModel}
use ai_daily_report.Admission.Types.{PlanCandidate}
use ai_daily_report.Admission.Content.{Classifications}

abbrev pub ascii_lower : Text → Text
ascii_lower = map (λ c. if is_ascii_uppercase c then c + 32 else c)

abbrev pub daily_context : ContextProfile
daily_context = record {
  profile_name = codes "daily_balanced_v1";
  global_max_chars = 500000;
  per_file_max_chars = 100000;
  small_file_max_bytes = 65536;
  medium_file_max_bytes = 1048576;
  large_file_max_bytes = 10485760;
  priority_policy_version = codes "budget_nominal_v2";
  compression_policy_version = codes "markdown_context_v2";
}

abbrev pub daily_settings : NormalizedScannerSettings
daily_settings = record {
  report_mode = ReportMode.daily;
  discovery = record {
    allowed_extensions = codes ".md" ∷ codes ".pdf" ∷ [];
    ignored_patterns = [];
    excluded_dirs = [];
    follow_symlinks = false;
    cloud_files_policy = codes "local_only";
  };
  execution = record {
    max_workers = 4;
    max_file_size_bytes = 104857600;
    discovery_timeout_ms = 60000;
    file_timeout_ms = 30000;
    file_timeout_by_extension_ms = (codes ".pdf", 60000) ∷ [];
  };
  parse = record {
    cache_payload_version = 1;
    excerpt_policy_version = codes "fair_semantic_v9";
    excerpt_priority_paths = [];
    aggregate_max_chars = 500000;
    text = record {
      csv_encodings = codes "utf-8" ∷ [];
      backend = codes "light_text_v2";
      read_head_bytes = 65536;
      read_tail_bytes = 65536;
      max_chars = 100000;
      excerpt_max_chars = 12000;
    };
    office = record {
      primary_backend = codes "rust_office_oxide_v2";
      legacy_extensions_enabled = false;
      excel_max_sheets = 4;
      excel_max_rows = 200;
      excel_max_columns = 20;
      docx_max_paragraphs = 200;
      docx_max_tables = 10;
      docx_table_max_rows = 50;
      docx_table_max_cols = 10;
      pptx_max_slides = 50;
      pptx_include_notes = true;
      document_excerpt_max_chars = 12000;
    };
    pdf = record {
      selection_policy_version = codes "pdf_text_presence_v2";
      backend = codes "rust_pdfium_v3";
      max_pages = 20;
      excerpt_max_chars = 12000;
    };
  };
  context = daily_context;
  admission_policy_version = codes "budget_refill_v3";
  classifier_policy_version = codes "pdf_text_presence_v2";
  max_candidate_files = 100;
  max_pdf_text_extractions = 10;
  max_total_pdf_classification_pages = 200;
  pdf_classification_timeout_ms = 5000;
  total_deadline_ms = 300000;
  worker_max_requests = 100;
  worker_idle_ttl_ms = 60000;
  worker_rss_limit_bytes = 1073741824;
}

abbrev pub file : Text → Text → PlanCandidate
file path extension = record {
  file_identity = path;
  relative_path = path;
  extension = extension;
  size_bytes = 2048;
  source_guard_kind = SourceGuardKind.content_sha256_v1;
}

abbrev pub report_pdf : PlanCandidate
report_pdf = file (codes "report.pdf") (codes ".pdf")

abbrev pub scan_pdf : PlanCandidate
scan_pdf = file (codes "scan.pdf") (codes ".pdf")

abbrev pub notes_md : PlanCandidate
notes_md = file (codes "notes.md") (codes ".md")

abbrev pub drawing_dwg : PlanCandidate
drawing_dwg = file (codes "a.dwg") (codes ".dwg")

-- A model with little room left: each of the sample files reserves more than 12000 characters.
abbrev pub small_model : ContextBudgetModel
small_model = record {
  global_max_chars = 30000;
  per_file_max_chars = 20000;
  base_chars = 1000;
  omitted_reservation = 600;
}

-- Every PDF has text.
abbrev pub all_text : Classifications
all_text = λ identity. some (record {
  file_identity = identity;
  status = PdfClassificationStatus.text_in_parse_window;
  page_count = some 3;
  result_examined_pages = some 3;
  error_code = none;
})
