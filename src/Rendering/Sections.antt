-- ===== src/Rendering/Sections.antt =====
-- rust/scanner_core/src/compressor.rs: the section of one file, and the line of a failed one. The
-- profile enters by its limit on a body.
use ai_daily_report.Prelude.{
  ℕ, Bool, true, false, List, [], ◌∷◌, ◌++◌, Text, codes, ltb, ◌||◌, text_eq, if◌then◌else◌, show,
}
use ai_daily_report.Contract.Types.{ReportMode, AuditWorkerLane, ContextAction, ContextDecision}
use ai_daily_report.Contract.Profile.{ContextProfile}
use ai_daily_report.Budget.Sections.{count_chars}
use ai_daily_report.Decision.Evidence.{ContextFileEvidence}
use ai_daily_report.Decision.Actions.{number_or}
use ai_daily_report.Rendering.Excerpt.{take_head_and_tail, take_log_tail}

-- `format!`, the pieces of the result one after the other.
unfoldable pub format : List Text → Text
format [] = []
format (t ∷ ts) = t ++ format ts

unfoldable pub report_mode_text : ReportMode → Text
report_mode_text ReportMode.daily = codes "daily"
report_mode_text ReportMode.weekly = codes "weekly"
report_mode_text ReportMode.monthly = codes "monthly"

-- `enum_text` of an action, and of a worker lane.
unfoldable pub action_text : ContextAction → Text
action_text ContextAction.keep = codes "keep"
action_text ContextAction.compress = codes "compress"
action_text ContextAction.metadata_only = codes "metadata_only"
action_text ContextAction.omit = codes "omit"
action_text ContextAction.error = codes "error"

unfoldable pub lane_text : AuditWorkerLane → Text
lane_text AuditWorkerLane.rust_core = codes "rust_core"
lane_text AuditWorkerLane.rust_office_process_v3 = codes "rust_office_process_v3"
lane_text AuditWorkerLane.rust_pdf_process_v3 = codes "rust_pdf_process_v3"
lane_text AuditWorkerLane.local_ocr_preflight = codes "local_ocr_preflight"
lane_text AuditWorkerLane.not_parsed = codes "not_parsed"

unfoldable pub render_run_summary : ReportMode → ContextProfile → ℕ → Text → Text → Text
unfolding report_mode_text show
render_run_summary report_mode profile source_file_count success_text failure_text = format (
    codes "## 本轮摘要\n- 报告模式: "
    ∷ report_mode_text report_mode
    ∷ codes "\n- 压缩 profile: "
    ∷ profile.profile_name
    ∷ codes "\n- 扫描文件数: "
    ∷ show source_file_count
    ∷ codes "\n- 成功解析数: "
    ∷ success_text
    ∷ codes "\n- 失败解析数: "
    ∷ failure_text
    ∷ codes "\n- 全局上下文预算: "
    ∷ show profile.global_max_chars
    ∷ codes "\n- 单文件正文预算: "
    ∷ show profile.per_file_max_chars
    ∷ codes "\n- 压缩策略: "
    ∷ profile.compression_policy_version
    ∷ [])

unfoldable pub render_notice : ContextProfile → Text
unfolding show
render_notice profile = format (
    codes "## 重要提示\n- 以下内容来自本地 scanner 输出；Rust context core 不重新读取文件、不调用 LLM。\n- 正文块受单文件预算 "
    ∷ show profile.per_file_max_chars
    ∷ codes " 字符限制；超出全局上下文预算的文件由确定性准入计划省略，并在省略摘要中汇总。"
    ∷ [])

abbrev pub twenty_nines : Text
twenty_nines = codes "99999999999999999999"

unfoldable pub fixed_context_sections : ContextProfile → ReportMode → ℕ → List Text
unfolding render_run_summary render_notice
fixed_context_sections profile report_mode source_file_count =
    codes "# 文件证据上下文"
    ∷ render_run_summary report_mode profile source_file_count twenty_nines twenty_nines
    ∷ render_notice profile
    ∷ codes "## 文件证据"
    ∷ []

unfoldable pub metadata_section : ContextFileEvidence → ContextDecision → Text
unfolding lane_text show
metadata_section e d = format (
    codes "### "
    ∷ d.relative_path
    ∷ codes "\n- action: metadata_only\n- reason: "
    ∷ d.reason
    ∷ codes "\n- parser_backend: "
    ∷ e.parser_backend
    ∷ codes "\n- worker_lane: "
    ∷ lane_text e.worker_lane
    ∷ codes "\n- file_type: "
    ∷ e.extension
    ∷ codes "\n- size_bytes: "
    ∷ show (number_or e.size_bytes 0)
    ∷ codes "\n- input_chars: ~"
    ∷ show d.input_chars
    ∷ codes "\n- body: omitted_by_metadata_only_policy"
    ∷ [])

-- The body of a section: the content, or its excerpt where it is over the limit.
unfoldable pub body_of : ContextFileEvidence → ℕ → Text
unfolding take_head_and_tail take_log_tail count_chars
body_of e limit =
    if ltb limit (count_chars e.content)
    then (if text_eq e.extension (codes ".log")
        then take_log_tail e.content limit
        else take_head_and_tail e.content limit)
    else e.content

abbrev pub truncated_note : Bool → Text
truncated_note truncated = if truncated then codes "\n- 内容已按单文件预算或解析预算截断" else []

-- The decision after its body is rendered.
unfoldable pub rendered_decision : ContextFileEvidence → ContextDecision → ℕ → ContextDecision
unfolding body_of count_chars
rendered_decision e d limit =
    let over = ltb limit (count_chars e.content) in
    record d {
      action = if over then ContextAction.compress else d.action;
      truncated = over || d.truncated;
      output_chars = count_chars (body_of e limit);
    }

unfoldable pub body_section : ContextFileEvidence → ContextDecision → Text → Text
unfolding action_text lane_text show
body_section e d body = format (
    codes "### "
    ∷ d.relative_path
    ∷ codes "\n- action: "
    ∷ action_text d.action
    ∷ codes "\n- reason: "
    ∷ d.reason
    ∷ codes "\n- parser_backend: "
    ∷ e.parser_backend
    ∷ codes "\n- worker_lane: "
    ∷ lane_text e.worker_lane
    ∷ codes "\n- input_chars: "
    ∷ show d.input_chars
    ∷ codes "\n- output_chars: "
    ∷ show d.output_chars
    ∷ truncated_note d.truncated
    ∷ codes "\n```text\n"
    ∷ body
    ∷ codes "\n```"
    ∷ [])

abbrev pub is_metadata_only : ContextAction → Bool
is_metadata_only ContextAction.metadata_only = true
is_metadata_only _ = false

-- `render_file_section`: the section, and the decision it leaves behind.
unfoldable pub render_file_section :
    ContextFileEvidence → ContextDecision → ContextProfile → Text × ContextDecision
unfolding metadata_section rendered_decision body_section body_of
render_file_section e d profile =
    let limit = profile.per_file_max_chars in
    let d' = rendered_decision e d limit in
    if is_metadata_only d.action
    then (metadata_section e d, record d { output_chars = 0 })
    else (body_section e d' (body_of e limit), d')

-- The line of a failed file among the parse issues.
unfoldable pub issue_line : ContextDecision → Text → Text
issue_line d error_code = format (
    codes "- "
    ∷ d.relative_path
    ∷ codes " | reason="
    ∷ d.reason
    ∷ codes " | error="
    ∷ error_code
    ∷ [])
