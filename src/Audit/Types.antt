-- ===== src/Audit/Types.antt =====
-- rust/worker_contract/src/content_audit.rs: the data of a parsed content audit. The archive
-- artifact is that of rust/worker_contract/src/archive.rs, its JSON coverage held as text.
use ai_daily_report.Prelude.{ℕ, Bool, Option, List, Text}

pub data SourceRangeUnit : Type 0 where
  pdf_page sheet_row paragraph table_row slide text_char csv_record byte : SourceRangeUnit

pub SourceRangeUnit-discrete : Discrete SourceRangeUnit
SourceRangeUnit-discrete = hlevel

pub record SourceRange : Type 0 where
  pub unit : SourceRangeUnit
  pub start : ℕ
  pub end : ℕ
  pub label : Option Text
  pub column_start : Option ℕ
  pub column_end : Option ℕ

pub data ContentUnitKind : Type 0 where
  heading paragraph table_header table_row unit total slide text placeholder : ContentUnitKind

pub record ContentUnit : Type 0 where
  pub unit_id : Text
  pub kind : ContentUnitKind
  pub text_start : ℕ
  pub text_end : ℕ
  pub ranges : List SourceRange

pub record ArchiveArtifact : Type 0 where
  pub version : ℕ
  pub coverage : Text
  pub body_sha256 : Text
  pub units_sha256 : Text
  pub index_sha256 : Text
  pub body_bytes : ℕ
  pub units_bytes : ℕ
  pub units : ℕ
  pub chars : ℕ
  pub usable_chars : ℕ
  pub truncated : Bool
  pub gaps : List Text
  pub error : Option Text

pub record ParsedContentAudit : Type 0 where
  pub archive : Option ArchiveArtifact
  pub version : ℕ
  pub read_ranges : Option (List SourceRange)
  pub content_units : Option (List ContentUnit)
  pub usable_chars : Option ℕ
  pub encoding : Option Text
  pub detected_format : Option Text
