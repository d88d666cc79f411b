-- ===== src/Rendering/OnePass.antt =====
-- The one pass of the budget: what stage B admits, the renderer can always append.
use ai_daily_report.Prelude.{
  ℕ, ◌+◌, ◌-◌, ◌/◌, min, ◌≤◌, ◌≡◌, ◌⊎◌, inl, inr, refl, arith, true, false, List, [], ◌∷◌, ◌++◌,
  map, Text, codes, length, sum_by, sum_by-append, length-append, length-show, ok, All,
  if◌then◌else◌, show, u64_max,
}
use ai_daily_report.Contract.Types.{ReportMode, ContextAction}
use ai_daily_report.Contract.Profile.{ContextProfile}
use ai_daily_report.Audit.Types.{ParsedContentAudit}
use ai_daily_report.Budget.Sections.{count_chars, omitted_summary_reservation}
use ai_daily_report.Budget.Model.{
  ContextBudgetModel, RouteHint, exact_chars, new_model, reserved_delta,
}
use ai_daily_report.Budget.Bounds.{new_model_iff}
use ai_daily_report.Budget.Omitted.{OmittedSummaryPlan}
use ai_daily_report.Decision.Actions.{DecidedFile}
use ai_daily_report.Rendering.Sections.{
  render_run_summary, render_notice, fixed_context_sections, twenty_nines, render_file_section,
}
use ai_daily_report.Rendering.Fits.{
  length-format, IsReserved, IsBounded, render_file_section-reserved_delta,
}
use ai_daily_report.Rendering.Decided.{is_body}
use ai_daily_report.Rendering.Building.{
  Building, parse_footer, join_blocks, include_file, omit_file, fail_file,
}
use ai_daily_report.Rendering.Context.{
  join_sections, can_append_with_footer, render_file, build_file_by, build_files, opening,
  new_building,
}

-- The sections, each with its separator.
abbrev pub size : List Text → ℕ
size = sum_by (λ (t : Text). length t + 2)

size-exact : (ts : List Text) → exact_chars ts ≡ size ts
unfolding exact_chars count_chars
size-exact [] = refl
size-exact (t ∷ ts) = omega (arith, size-exact ts)

module _ (trim_end : Text → Text) (shortens : (t : Text) → length (trim_end t) ≤ length t) where
  length-join_blocks : (ts : List Text) → length (join_blocks (map trim_end ts)) ≤ size ts - 2
  unfolding join_blocks
  length-join_blocks [] = omega arith
  length-join_blocks (t ∷ []) = omega (arith, shortens t)
  length-join_blocks (t ∷ u ∷ ts) = omega (
    arith,
    shortens t,
    length-join_blocks (u ∷ ts),
    length-append (trim_end t) (codes "\n\n" ++ join_blocks (map trim_end (u ∷ ts))),
    length-append (codes "\n\n") (join_blocks (map trim_end (u ∷ ts))),
  )

  module _ (to_lowercase : Text → Text) (encoded_len : ParsedContentAudit → ℕ) where
    pub length-join_sections :
        (ts : List Text)
        → length (join_sections to_lowercase trim_end encoded_len ts) ≤ size ts - 2 + 1
    unfolding join_sections
    length-join_sections ts = omega (
      arith,
      length-append (trim_end (join_blocks (map trim_end ts))) (b'\n' ∷ []),
      shortens (join_blocks (map trim_end ts)),
      length-join_blocks ts,
    )

    -- Twenty-one characters behind a section are room for the footer.
    pub appends :
        (sections : List Text) (candidate : Text) (budget : ℕ)
        → size sections + (length candidate + 2) + 21 ≤ budget
        → can_append_with_footer to_lowercase trim_end encoded_len sections candidate budget ≡ true
    unfolding can_append_with_footer count_chars
    appends sections candidate budget h =
        let all = sections ++ candidate ∷ parse_footer ∷ [] in
        let long = length-join_sections all in
        let sum =
          sum_by-append (λ (t : Text). length t + 2) sections (candidate ∷ parse_footer ∷ []) in
        ground (arith, long, sum)

-- What stage B reserved for a file: nothing where the file gets no section.
abbrev pub reserved_for : ContextBudgetModel → (DecidedFile → RouteHint) → DecidedFile → ℕ
reserved_for m route f = if is_body f.decision.action then reserved_delta m (route f) else 0

-- A file gets no section, or its route is the one that stage B priced.
abbrev pub IsPriced :
    ContextBudgetModel → ContextProfile → (DecidedFile → RouteHint) → DecidedFile → Type 0
IsPriced m profile route f =
    (is_body f.decision.action ≡ false)
    ⊎ (IsReserved m (route f) profile f.evidence f.decision × IsBounded f.evidence f.decision)

length-render_run_summary :
    (mode : ReportMode) (profile : ContextProfile) (source : ℕ) (a b : Text)
    → length (render_run_summary mode profile source a b)
      ≡ length (render_run_summary mode profile source [] []) + length a + length b
unfolding render_run_summary
length-render_run_summary mode profile source a b = rw (length-format, length-format) (omega arith)

pub length-opening :
    (profile : ContextProfile) (mode : ReportMode) (source success failure : ℕ)
    (to_lowercase trim_end : Text → Text) (encoded_len : ParsedContentAudit → ℕ)
    → size (opening to_lowercase trim_end encoded_len profile mode source success failure) + 40
      ≡ exact_chars (fixed_context_sections profile mode source)
        + length (show success)
        + length (show failure)
unfolding fixed_context_sections
length-opening profile mode source success failure to_lowercase trim_end encoded_len = omega (
  arith,
  size-exact (fixed_context_sections profile mode source),
  length-render_run_summary mode profile source (show success) (show failure),
  length-render_run_summary mode profile source twenty_nines twenty_nines,
  length-show success,
  length-show failure,
)

-- The fixed sections are long enough for their budget to have room for the footer.
fixed_size :
    (profile : ContextProfile) (mode : ReportMode) (source : ℕ)
    → 106 ≤ exact_chars (fixed_context_sections profile mode source)
unfolding fixed_context_sections render_notice exact_chars count_chars
fixed_size profile mode source = rw length-format (omega arith)

-- A fifth of such a budget holds the footer.
reservation_room : (g : ℕ) → min 21 (g / 5) ≤ omitted_summary_reservation g
unfolding omitted_summary_reservation
reservation_room g = omega arith

module _ (to_lowercase trim_end : Text → Text) (encoded_len : ParsedContentAudit → ℕ)
    (shortens : (t : Text) → length (trim_end t) ≤ length t) (m : ContextBudgetModel)
    (profile : ContextProfile) (plan : OmittedSummaryPlan) (route : DecidedFile → RouteHint) where
  render_file_ok :
      (b : Building) (f : DecidedFile)
      → IsReserved m (route f) profile f.evidence f.decision
      → IsBounded f.evidence f.decision
      → size b.sections + reserved_delta m (route f) + 21 ≤ profile.global_max_chars
      → (c : Building) × (render_file to_lowercase trim_end encoded_len profile b f ≡ ok c)
        × (size c.sections ≤ size b.sections + reserved_delta m (route f))
  unfolding render_file
  render_file_ok b f i s h =
      let rendered = render_file_section f.evidence f.decision profile in
      let (fits, _) =
        render_file_section-reserved_delta m (route f) profile f.evidence f.decision [] i s
          (omega arith) in
      let can =
        appends trim_end shortens to_lowercase encoded_len b.sections rendered.0
          profile.global_max_chars (omega (arith, fits, h)) in
      (
        include_file b f rendered,
        rw can refl,
        omega
            (arith, fits, sum_by-append (λ (t : Text). length t + 2) b.sections (rendered.0 ∷ [])),
      )

  body_ok :
      (b : Building) (f : DecidedFile)
      → is_body f.decision.action ≡ true
      → IsPriced m profile route f
      → size b.sections + reserved_for m route f + 21 ≤ profile.global_max_chars
      → (c : Building) × (render_file to_lowercase trim_end encoded_len profile b f ≡ ok c)
        × (size c.sections ≤ size b.sections + reserved_for m route f)
  body_ok b f body (inl out) h = absurd (ground arith)
  body_ok b f body (inr (i, s)) h =
      let price : reserved_for m route f ≡ reserved_delta m (route f) = ground arith in
      let (c, e, grown) = render_file_ok b f i s (omega (arith, h, price)) in
      (c, e, omega (arith, grown, price))

  build_file_by_ok :
      (a : ContextAction) (b : Building) (f : DecidedFile)
      → f.decision.action ≡ a
      → IsPriced m profile route f
      → size b.sections + reserved_for m route f + 21 ≤ profile.global_max_chars
      → (c : Building) × (build_file_by to_lowercase trim_end encoded_len a profile plan b f ≡ ok c)
        × (size c.sections ≤ size b.sections + reserved_for m route f)
  build_file_by_ok ContextAction.omit b f e p h = (omit_file plan b f, refl, omega arith)
  build_file_by_ok ContextAction.error b f e p h =
      (fail_file b f, refl, unfold fail_file in omega arith)
  build_file_by_ok ContextAction.keep b f e p h = body_ok b f (rw e refl) p h
  build_file_by_ok ContextAction.compress b f e p h = body_ok b f (rw e refl) p h
  build_file_by_ok ContextAction.metadata_only b f e p h = body_ok b f (rw e refl) p h

  build_files_ok :
      (fs : List DecidedFile) (b : Building)
      → All (IsPriced m profile route) fs
      → size b.sections + sum_by (reserved_for m route) fs + 21 ≤ profile.global_max_chars
      → (c : Building) × (build_files to_lowercase trim_end encoded_len profile plan b fs ≡ ok c)
        × (size c.sections ≤ size b.sections + sum_by (reserved_for m route) fs)
  unfolding build_files
  build_files_ok [] b p h = (b, refl, omega arith)
  build_files_ok (f ∷ fs) b p h =
      let (built, e, grown) = build_file_by_ok f.decision.action b f refl p.0 (omega (arith, h)) in
      let (c, rest, more) = build_files_ok fs built p.1 (omega (arith, h, grown)) in
      (c, rw e rest, omega (arith, grown, more))

  -- Whatever stage B admits is appended, and leaves the room of the summary and what the worst case
  -- of the two counts was priced above their digits.
  pub build_files_admitted :
      (mode : ReportMode) (source success failure : ℕ) (decided : List DecidedFile)
      → profile.global_max_chars ≤ u64_max
      → new_model profile (fixed_context_sections profile mode source) ≡ ok m
      → All (IsPriced m profile route) decided
      → m.base_chars + sum_by (reserved_for m route) decided ≤ profile.global_max_chars
      → (built : Building) × (build_files to_lowercase trim_end encoded_len profile plan
            (new_building to_lowercase trim_end encoded_len
              (opening to_lowercase trim_end encoded_len profile mode source success failure))
            decided
          ≡ ok built)
        × (size built.sections + omitted_summary_reservation profile.global_max_chars + 40
            ≤ profile.global_max_chars + length (show success) + length (show failure))
  build_files_admitted mode source success failure decided small e priced h =
      let fixed = fixed_context_sections profile mode source in
      let (fits, _, _, base, _) = (new_model_iff profile fixed m small).0 e in
      let counts =
        length-opening profile mode source success failure to_lowercase trim_end encoded_len in
      let (built, f, grown) = build_files_ok decided _ priced (
        omega (
          arith,
          h,
          base,
          fits,
          fixed_size profile mode source,
          reservation_room profile.global_max_chars,
          counts,
          length-show success,
          length-show failure,
        )) in
      (built, f, omega (arith, grown, counts, h, base))
