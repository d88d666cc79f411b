-- ===== src/Decision/ErrorText.antt =====
-- rust/scanner_contract/src/lib.rs: error codes as they are serialized, in upper case.
use ai_daily_report.Prelude.{Text, codes}
use ai_daily_report.Contract.Types.{ErrorCode}

unfoldable pub error_code_text : ErrorCode → Text
error_code_text ErrorCode.invalid_request = codes "INVALID_REQUEST"
error_code_text ErrorCode.contract_version_mismatch = codes "CONTRACT_VERSION_MISMATCH"
error_code_text ErrorCode.work_dir_not_found = codes "WORK_DIR_NOT_FOUND"
error_code_text ErrorCode.work_dir_not_directory = codes "WORK_DIR_NOT_DIRECTORY"
error_code_text ErrorCode.discovery_entry_unreadable = codes "DISCOVERY_ENTRY_UNREADABLE"
error_code_text ErrorCode.file_too_large = codes "FILE_TOO_LARGE"
error_code_text ErrorCode.parser_start_failed = codes "PARSER_START_FAILED"
error_code_text ErrorCode.parser_timeout = codes "PARSER_TIMEOUT"
error_code_text ErrorCode.parser_invalid_payload = codes "PARSER_INVALID_PAYLOAD"
error_code_text ErrorCode.parser_failed = codes "PARSER_FAILED"
error_code_text ErrorCode.pdf_protected = codes "PDF_PROTECTED"
error_code_text ErrorCode.worker_handshake_failed = codes "WORKER_HANDSHAKE_FAILED"
error_code_text ErrorCode.worker_version_mismatch = codes "WORKER_VERSION_MISMATCH"
error_code_text ErrorCode.worker_build_changed = codes "WORKER_BUILD_CHANGED"
error_code_text ErrorCode.source_version_changed = codes "SOURCE_VERSION_CHANGED"
error_code_text ErrorCode.cache_open_failed = codes "CACHE_OPEN_FAILED"
error_code_text ErrorCode.cache_write_failed = codes "CACHE_WRITE_FAILED"
error_code_text ErrorCode.scan_already_running = codes "SCAN_ALREADY_RUNNING"
error_code_text ErrorCode.request_in_progress = codes "REQUEST_IN_PROGRESS"
error_code_text ErrorCode.request_id_conflict = codes "REQUEST_ID_CONFLICT"
error_code_text ErrorCode.run_not_found = codes "RUN_NOT_FOUND"
error_code_text ErrorCode.run_corrupt = codes "RUN_CORRUPT"
error_code_text ErrorCode.context_budget_invalid = codes "CONTEXT_BUDGET_INVALID"
error_code_text ErrorCode.not_implemented = codes "NOT_IMPLEMENTED"
error_code_text ErrorCode.rust_core_crashed = codes "RUST_CORE_CRASHED"
error_code_text ErrorCode.stage_deadline_exhausted = codes "STAGE_DEADLINE_EXHAUSTED"
error_code_text ErrorCode.budget_model_mismatch = codes "BUDGET_MODEL_MISMATCH"
error_code_text ErrorCode.context_fixed_sections_over_budget =
    codes "CONTEXT_FIXED_SECTIONS_OVER_BUDGET"
error_code_text ErrorCode.profile_route_invariant = codes "PROFILE_ROUTE_INVARIANT"
error_code_text ErrorCode.source_file_limit_exceeded = codes "SOURCE_FILE_LIMIT_EXCEEDED"
error_code_text ErrorCode.source_guard_unavailable = codes "SOURCE_GUARD_UNAVAILABLE"
error_code_text ErrorCode.scanner_db_schema_mismatch = codes "SCANNER_DB_SCHEMA_MISMATCH"
error_code_text ErrorCode.diagnostics_aggregated = codes "DIAGNOSTICS_AGGREGATED"
error_code_text ErrorCode.snapshot_reuse_projected_as_fresh =
    codes "SNAPSHOT_REUSE_PROJECTED_AS_FRESH"
error_code_text ErrorCode.parse_cache_not_applicable_projected_as_miss =
    codes "PARSE_CACHE_NOT_APPLICABLE_PROJECTED_AS_MISS"
error_code_text ErrorCode.cache_miss_reason_projected_as_new_file =
    codes "CACHE_MISS_REASON_PROJECTED_AS_NEW_FILE"
error_code_text ErrorCode.source_guard_not_projected = codes "SOURCE_GUARD_NOT_PROJECTED"
error_code_text ErrorCode.worker_rss_unavailable = codes "WORKER_RSS_UNAVAILABLE"
error_code_text ErrorCode.internal_error = codes "INTERNAL_ERROR"
