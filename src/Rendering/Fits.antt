-- ===== src/Rendering/Fits.antt =====
-- What a file's section takes of the context is at most what stage B reserved for it.
use ai_daily_report.Prelude.{
  ℕ, ◌+◌, ◌≤◌, ◌≡◌, refl, Bool, true, List, [], ◌∷◌, Text, length, ltb, sum_by, length-show,
  length-append, length-take, arith, inl, inr, Bool-cases, dec_lt, lt→ltb,
}
use ai_daily_report.Contract.Types.{AuditWorkerLane, ContextAction, ContextDecision}
use ai_daily_report.Contract.Profile.{ContextProfile}
use ai_daily_report.Budget.Sections.{
  count_chars, success_section_max, metadata_section_max, bounded_error_section_max,
  section_separator_chars,
}
use ai_daily_report.Budget.Model.{ContextBudgetModel, RouteHint, reserved_delta}
use ai_daily_report.Budget.Bounds.{reserved_delta_covers}
use ai_daily_report.Decision.Evidence.{ContextFileEvidence}
use ai_daily_report.Decision.Actions.{number_or}
use ai_daily_report.Rendering.Excerpt.{take_log_tail}
use ai_daily_report.Rendering.Cuts.{length-take_head_and_tail, take_log_tail_lem}
use ai_daily_report.Rendering.Sections.{
  format, action_text, lane_text, metadata_section, body_of, truncated_note, rendered_decision,
  body_section, render_file_section, issue_line, is_metadata_only,
}

pub length-format : (ts : List Text) → length (format ts) ≡ sum_by length ts
unfolding format
length-format [] = refl
length-format (t ∷ ts) = omega (arith, length-append t (format ts), length-format ts)

length-action_text : (a : ContextAction) → length (action_text a) ≤ 64
unfolding action_text
length-action_text a = ground arith

length-lane_text : (l : AuditWorkerLane) → length (lane_text l) ≤ 64
unfolding lane_text
length-lane_text l = ground arith

length-truncated_note : (b : Bool) → length (truncated_note b) ≤ 19
length-truncated_note b = ground arith

length-take_log_tail :
    (content : Text) (limit : ℕ)
    → ltb limit (length content) ≡ true
    → length (take_log_tail content limit) ≤ limit
length-take_log_tail content limit over = elim (dec_lt limit 64) [
  | yes small ↦
      unfold take_log_tail in rw (lt→ltb limit 64 small) (omega (arith, length-take limit content))
  | no big ↦
      let (gap, tail, _, _, _, fits) =
        take_log_tail_lem content limit (ground arith) (omega arith) in
      fits
]

-- A rendered body keeps to the limit, and is no longer than the content.
length-body_of :
    (e : ContextFileEvidence) (limit : ℕ)
    → (length (body_of e limit) ≤ limit) × (length (body_of e limit) ≤ length e.content)
unfolding body_of count_chars
length-body_of e limit = elim (Bool-cases (ltb limit (length e.content))) [
  | inl over ↦ rw over (
      let log = length-take_log_tail e.content limit over in
      let ends = length-take_head_and_tail e.content limit (ground arith) in
      ground (arith, log, ends))
  | inr fits ↦ rw fits (ground arith)
]

-- The texts of a section that the reservation prices by a bound of their own.
pub record IsBounded (e : ContextFileEvidence) (d : ContextDecision) : Type 0 where
  pub reason : length d.reason ≤ 64
  pub backend : length e.parser_backend ≤ 64
  pub extension : length e.extension ≤ 32

length-metadata_section :
    (e : ContextFileEvidence) (d : ContextDecision)
    → IsBounded e d
    → length (metadata_section e d) + section_separator_chars
      ≤ metadata_section_max (count_chars d.relative_path)
unfolding metadata_section metadata_section_max count_chars
length-metadata_section e d b = rw length-format (
    omega (
      arith,
      length-lane_text e.worker_lane,
      length-show (number_or e.size_bytes 0),
      length-show d.input_chars,
      b.reason,
      b.backend,
      b.extension,
    ))

length-body_section :
    (e : ContextFileEvidence) (d : ContextDecision) (body : Text)
    → IsBounded e d
    → length (body_section e d body) + section_separator_chars
      ≤ success_section_max (count_chars d.relative_path) (length body)
unfolding body_section success_section_max count_chars
length-body_section e d body b = rw length-format (
    omega (
      arith,
      length-action_text d.action,
      length-lane_text e.worker_lane,
      length-truncated_note d.truncated,
      length-show d.input_chars,
      length-show d.output_chars,
      b.reason,
      b.backend,
    ))

-- The model is that of the profile, the route is that of the decision's file, and the content keeps
-- to the route's excerpt limit.
pub record IsReserved (m : ContextBudgetModel) (r : RouteHint) (profile : ContextProfile)
    (e : ContextFileEvidence) (d : ContextDecision) : Type 0 where
  pub limit : m.per_file_max_chars ≡ profile.per_file_max_chars
  pub path : r.relative_path ≡ d.relative_path
  pub content : length e.content ≤ r.hint_max_excerpt_chars

length-issue_line :
    (d : ContextDecision) (error_code : Text)
    → length d.reason ≤ 64
    → length error_code ≤ 64
    → length (issue_line d error_code) + 1 + section_separator_chars
      ≤ bounded_error_section_max (count_chars d.relative_path)
unfolding issue_line bounded_error_section_max count_chars
length-issue_line d error_code b c = rw length-format (omega arith)

-- The reservation covers the sections that are priced at the decision's own path.
reserved_delta_covers_path :
    (m : ContextBudgetModel) (r : RouteHint) (profile : ContextProfile) (e : ContextFileEvidence)
    (d : ContextDecision)
    → IsReserved m r profile e d
    → (success_section_max
          (count_chars d.relative_path)
          (length (body_of e profile.per_file_max_chars))
        ≤ reserved_delta m r)
      × (metadata_section_max (count_chars d.relative_path) ≤ reserved_delta m r)
      × (bounded_error_section_max (count_chars d.relative_path) ≤ reserved_delta m r)
reserved_delta_covers_path m r profile e d i =
    let body = length-body_of e profile.per_file_max_chars in
    rw (← i.path) (
      reserved_delta_covers m r (length (body_of e profile.per_file_max_chars))
        (omega (arith, body, i.limit, i.content)))

length-rendered :
    (e : ContextFileEvidence) (d : ContextDecision) (limit : ℕ)
    → IsBounded e d
    → length (body_section e (rendered_decision e d limit) (body_of e limit))
        + section_separator_chars
      ≤ success_section_max (count_chars d.relative_path) (length (body_of e limit))
unfolding rendered_decision
length-rendered e d limit b =
    length-body_section e (rendered_decision e d limit) (body_of e limit)
      (record { reason = b.reason; backend = b.backend; extension = b.extension })

-- Whatever the decision, the section with its separator fits what stage B reserved for the file's
-- route, and so does the line of a failed file with its separator: where the reason and the backend
-- have at most 64 characters, the extension at most 32, and the error code at most 64.
pub render_file_section-reserved_delta :
    (m : ContextBudgetModel) (r : RouteHint) (profile : ContextProfile) (e : ContextFileEvidence)
    (d : ContextDecision) (error_code : Text)
    → IsReserved m r profile e d
    → IsBounded e d
    → length error_code ≤ 64
    → (length (render_file_section e d profile).0 + section_separator_chars ≤ reserved_delta m r)
      × (length (issue_line d error_code) + 1 + section_separator_chars ≤ reserved_delta m r)
unfolding render_file_section
render_file_section-reserved_delta m r profile e d error_code i b c =
    let limit = profile.per_file_max_chars in
    let d' = rendered_decision e d limit in
    let covers = reserved_delta_covers_path m r profile e d i in
    (
      elim (Bool-cases (is_metadata_only d.action)) [
        | inl metadata ↦ rw metadata (omega (arith, covers, length-metadata_section e d b))
        | inr other ↦ rw other (omega (arith, covers, length-rendered e d limit b))
      ],
      omega (arith, covers, length-issue_line d error_code b.reason c),
    )
