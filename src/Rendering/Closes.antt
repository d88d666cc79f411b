-- ===== src/Rendering/Closes.antt =====
-- A context whose files were admitted is closed: nothing after the files fails for the budget.
use ai_daily_report.Prelude.{
  ℕ, ◌+◌, ◌≤◌, ◌≡◌, ◌⊎◌, inl, inr, refl, arith, List, [], ◌∷◌, ◌++◌, map, Text, codes, length,
  is_empty, leb, sum_by, sum_by-append, length-append, ok, err, All, Bool-cases, Result-cases,
  if◌then◌else◌, show, u64_max, ◌==◌,
}
use ai_daily_report.Contract.Types.{ReportMode}
use ai_daily_report.Contract.Profile.{ContextProfile}
use ai_daily_report.Audit.Types.{ParsedContentAudit}
use ai_daily_report.Budget.Sections.{count_chars, omitted_summary_reservation}
use ai_daily_report.Budget.Model.{ContextBudgetModel, RouteHint, new_model}
use ai_daily_report.Budget.Omitted.{OmittedSummaryPlan}
use ai_daily_report.Decision.Actions.{DecidedFile}
use ai_daily_report.Rendering.Sections.{fixed_context_sections}
use ai_daily_report.Rendering.Summary.{
  OmittedRow, summary_section, detail_rows, header_used, aggregate, groups_of, other_rows,
  summary_text,
}
use ai_daily_report.Rendering.Totals.{checked_section_ok}
use ai_daily_report.Rendering.Building.{Building, join_blocks}
use ai_daily_report.Rendering.Context.{
  join_sections, append_if_fits, append_parse_issues, append_omitted_summary, check_content,
  close_context, build_files, new_building, opening,
}
use ai_daily_report.Rendering.OnePass.{
  size, appends, length-join_sections, IsPriced, reserved_for, build_files_admitted,
}

-- A summary keeps to its reservation.
length-summary_section :
    (reservation : ℕ) (omitted : List OmittedRow) (section : Text)
    → summary_section reservation omitted ≡ ok section
    → length section ≤ reservation
unfolding summary_section
length-summary_section reservation omitted section h =
    elim (Result-cases (detail_rows reservation (header_used (length omitted)) omitted)) [
      | inl (details, d) ↦
          let groups = aggregate reservation (groups_of omitted []) details.1 0 in
          elim (Result-cases (other_rows reservation groups.used groups.other_count)) [
            | inl (rows, o) ↦
                (checked_section_ok reservation
                  (summary_text (length omitted) details.0 groups.shown rows) section
                  (ground arith)).1
            | inr (x, o) ↦ absurd (ground arith)
          ]
      | inr (x, d) ↦ absurd (ground arith)
    ]

check_content_ok :
    (budget : ℕ) (content : Text)
    → length content ≤ budget
    → 1 ≤ length content
    → check_content budget content ≡ ok content
unfolding check_content count_chars
check_content_ok budget content h k = ground arith

module _ (to_lowercase trim_end : Text → Text) (encoded_len : ParsedContentAudit → ℕ) where
  -- What closing does: it fails only where the summary of omitted files does.
  abbrev pub Closes : ContextProfile → OmittedSummaryPlan → Building → Type 0
  Closes profile plan b =
      ((content : Text) × (close_context to_lowercase trim_end encoded_len profile plan b
          ≡ ok content))
      ⊎ ((e : Text) × (summary_section plan.reservation b.omitted_files ≡ err e)
          × (close_context to_lowercase trim_end encoded_len profile plan b ≡ err e))

module _ (to_lowercase trim_end : Text → Text) (encoded_len : ParsedContentAudit → ℕ)
    (shortens : (t : Text) → length (trim_end t) ≤ length t) where
  append_if_fits_size :
      (sections : List Text) (candidate : Text) (budget : ℕ)
      → size (append_if_fits to_lowercase trim_end encoded_len sections candidate budget)
        ≤ size sections + length candidate + 2
  unfolding append_if_fits
  append_if_fits_size sections candidate budget =
      ground (arith, sum_by-append (λ (t : Text). length t + 2) sections (candidate ∷ []))

  -- Sections that fit still fit after one more is offered.
  append_if_fits_fits :
      (sections : List Text) (candidate : Text) (budget : ℕ)
      → size sections + 1 ≤ budget
      → length (
          join_sections to_lowercase trim_end encoded_len
            (append_if_fits to_lowercase trim_end encoded_len sections candidate budget))
        ≤ budget
  unfolding append_if_fits count_chars
  append_if_fits_fits sections candidate budget h =
      let kept = length-join_sections trim_end shortens to_lowercase encoded_len sections in
      elim (Bool-cases (
        leb (length (join_sections to_lowercase trim_end encoded_len (sections ++ candidate ∷ [])))
          budget)) [ inl e ↦ rw e (ground arith) | inr e ↦ rw e (omega (arith, kept, h)) ]

  join_sections_positive :
      (sections : List Text) → 1 ≤ length (join_sections to_lowercase trim_end encoded_len sections)
  unfolding join_sections
  join_sections_positive sections =
      omega (arith, length-append (trim_end (join_blocks (map trim_end sections))) (b'\n' ∷ []))

  checked :
      (sections : List Text) (issues : List Text) (budget : ℕ)
      → size sections + 1 ≤ budget
      → (content : Text) × (check_content budget (
            join_sections to_lowercase trim_end encoded_len
              (append_parse_issues to_lowercase trim_end encoded_len sections issues budget))
          ≡ ok content)
  unfolding append_parse_issues
  checked sections issues budget h =
      let all = append_parse_issues to_lowercase trim_end encoded_len sections issues budget in
      (
        join_sections to_lowercase trim_end encoded_len all,
        check_content_ok budget (join_sections to_lowercase trim_end encoded_len all)
            (append_if_fits_fits sections _ budget h) (join_sections_positive all),
      )

  summarized_or :
      (sections : List Text) (omitted : List OmittedRow) (plan : OmittedSummaryPlan) (budget : ℕ)
      → size sections + plan.reservation + 23 ≤ budget
      → ((all : List Text) × (append_omitted_summary to_lowercase trim_end encoded_len sections
              omitted plan budget
            ≡ ok all)
          × (size all + 1 ≤ budget))
        ⊎ ((e : Text) × (summary_section plan.reservation omitted ≡ err e)
            × (append_omitted_summary to_lowercase trim_end encoded_len sections omitted plan budget
                ≡ err e))
  unfolding append_omitted_summary
  summarized_or sections omitted plan budget h = elim (Bool-cases (is_empty omitted)) [
    | inl none_omitted ↦ inl (sections, rw none_omitted refl, omega (arith, h))
    | inr some_omitted ↦ elim (Result-cases (summary_section plan.reservation omitted)) [
      | inl (section, s) ↦
          let short = length-summary_section plan.reservation omitted section s in
          let can =
            appends trim_end shortens to_lowercase encoded_len sections section budget
              (omega (arith, short, h)) in
          inl (
            sections ++ section ∷ [],
            rw (some_omitted, s, can) refl,
            omega (
              arith,
              short,
              h,
              sum_by-append (λ (t : Text). length t + 2) sections (section ∷ []),
            ),
          )
      | inr (e, s) ↦ inr (e, s, rw (some_omitted, s) refl)
    ]
  ]

  closes :
      (profile : ContextProfile) (plan : OmittedSummaryPlan) (b : Building)
      → size b.sections + plan.reservation + 30 ≤ profile.global_max_chars
      → Closes to_lowercase trim_end encoded_len profile plan b
  unfolding close_context
  closes profile plan b h =
      let budget = profile.global_max_chars in
      let note = codes "无文件证据" in
      let sections =
        if b.included == 0
        then append_if_fits to_lowercase trim_end encoded_len b.sections note budget
        else b.sections in
      let grown : size sections ≤ size b.sections + 7 =
        ground (arith, append_if_fits_size b.sections note budget) in
      elim (summarized_or sections b.omitted_files plan budget (omega (arith, grown, h))) [
        | inl (all, e, fits) ↦
            let (content, c) = checked all b.parse_issues budget fits in inl (content, rw e c)
        | inr (e, s, a) ↦ inr (e, s, rw a refl)
      ]

  -- What stage B admits, the renderer writes: where the model is that of the profile's fixed
  -- sections, each file with a section is priced by its route, the base of the model with all
  -- reservations keeps to the global budget of a `u64` profile, and the decimals of the counts of
  -- successes and failures have at most ten digits together, every file is appended, and the context
  -- is closed without an error but one of the summary of omitted files itself, if trimming never
  -- makes a text longer.
  pub build_files-Closes :
      (m : ContextBudgetModel) (profile : ContextProfile) (plan : OmittedSummaryPlan)
      (route : DecidedFile → RouteHint) (mode : ReportMode) (source success failure : ℕ)
      (decided : List DecidedFile)
      → profile.global_max_chars ≤ u64_max
      → plan.reservation ≡ omitted_summary_reservation profile.global_max_chars
      → new_model profile (fixed_context_sections profile mode source) ≡ ok m
      → All (IsPriced m profile route) decided
      → m.base_chars + sum_by (reserved_for m route) decided ≤ profile.global_max_chars
      → length (show success) + length (show failure) ≤ 10
      → (built : Building) × (build_files to_lowercase trim_end encoded_len profile plan
            (new_building to_lowercase trim_end encoded_len
              (opening to_lowercase trim_end encoded_len profile mode source success failure))
            decided
          ≡ ok built)
        × Closes to_lowercase trim_end encoded_len profile plan built
  build_files-Closes m profile plan route mode source success failure decided small r e priced h
        digits =
      let (built, f, room) =
        build_files_admitted to_lowercase trim_end encoded_len shortens m profile plan route mode
          source success failure decided small e priced h in
      (built, f, closes profile plan built (omega (arith, room, r, digits)))
