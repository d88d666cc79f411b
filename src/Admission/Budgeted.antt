-- ===== src/Admission/Budgeted.antt =====
-- Stage B within its budget: characters and extraction slots, and no file passed over that fits.
use ai_daily_report.Prelude.{
  ℕ, ◌+◌, ◌-◌, ◌≤◌, ◌<◌, ◌≡◌, ◌↔◌, ◌⊎◌, refl, Bool, true, false, Option, some, List, [], ◌∷◌,
  sum_by, arith, u64_max, if◌then◌else◌, ◌&&◌,
}
use ai_daily_report.Contract.Types.{PdfClassificationStatus}
use ai_daily_report.Contract.Profile.{NormalizedScannerSettings}
use ai_daily_report.Budget.Model.{ContextBudgetModel, admits, reserved_delta}
use ai_daily_report.Admission.Types.{
  PlanAction, PdfClassificationPlan, ClassifiedPlan, AdmissionDecision,
}
use ai_daily_report.Admission.Content.{
  Counters, Classifications, status_of, decide, decide_all, decision_of, build_with_remaining,
  route_hint,
}
use ai_daily_report.Admission.Quotas.{is_admit}

-- What a list of decisions reserves.
abbrev pub reserved : List AdmissionDecision → ℕ
reserved = sum_by (λ d. d.reserved_chars)

module _ (m : ContextBudgetModel) (s : NormalizedScannerSettings) (cls : Classifications) where
  -- One step keeps the budget: what is reserved is what the counter gains.
  decide_budget :
      (a : PlanAction) (plan : ClassifiedPlan) (c : Counters)
      → m.global_max_chars < u64_max
      → m.base_chars + c.running ≤ m.global_max_chars
      → let r = decide m s cls a plan c in
        (r.1.running ≡ c.running + r.0.1) × (m.base_chars + r.1.running ≤ m.global_max_chars)
  unfolding decide admits
  decide_budget a plan c g h = ground arith

  decide_all_budget :
      (plans : List ClassifiedPlan) (c : Counters)
      → m.global_max_chars < u64_max
      → m.base_chars + c.running ≤ m.global_max_chars
      → m.base_chars + c.running + reserved (decide_all m s cls plans c) ≤ m.global_max_chars
  unfolding decide_all
  decide_all_budget [] c g h = omega arith
  decide_all_budget (plan ∷ plans) c g h =
      let r = decide m s cls plan.action plan c in
      let (gained, fits) = decide_budget plan.action plan c g h in
      omega (arith, decide_all_budget plans r.1 g fits)

  -- Where the retained characters fit beside the base, the base, the retained characters and all
  -- that the plan reserves fit the global budget.
  pub build_with_remaining_budget :
      (plans : List ClassifiedPlan) (retained slots : ℕ)
      → m.global_max_chars < u64_max
      → m.base_chars + retained ≤ m.global_max_chars
      → m.base_chars + retained + reserved (build_with_remaining m s cls plans retained slots)
        ≤ m.global_max_chars
  unfolding build_with_remaining
  build_with_remaining_budget plans retained slots g h = decide_all_budget plans _ g h

-- Whether the body can be read at all: a PDF needs a classifier's answer about its text.
abbrev pub is_readable : PdfClassificationPlan → Option PdfClassificationStatus → Bool
is_readable PdfClassificationPlan.not_pdf status = true
is_readable (PdfClassificationPlan.classify n) (some PdfClassificationStatus.text_in_parse_window) =
    true
is_readable (PdfClassificationPlan.classify n)
      (some PdfClassificationStatus.no_text_in_parse_window) =
    true
is_readable _ _ = false

-- Whether the file needs an extraction slot: it is a PDF with text.
abbrev pub needs_slot : PdfClassificationPlan → Option PdfClassificationStatus → Bool
needs_slot (PdfClassificationPlan.classify n) (some PdfClassificationStatus.text_in_parse_window) =
    true
needs_slot _ _ = false

module _ (m : ContextBudgetModel) (s : NormalizedScannerSettings) (cls : Classifications) where
  abbrev pub delta_of : ClassifiedPlan → PlanAction → ℕ
  delta_of plan (PlanAction.admit route) = reserved_delta m (route_hint plan route s)
  delta_of plan _ = 0

  -- The extraction slots that a decision takes.
  abbrev pub slot_of : ClassifiedPlan → AdmissionDecision → ℕ
  slot_of plan d =
      if is_admit d.action && needs_slot plan.pdf_classification (status_of cls plan.file_identity)
      then 1
      else 0

  -- What a decision must be, given what earlier ones have reserved and the slots they left.
  pub record IsVerdict (running slots : ℕ) (plan : ClassifiedPlan) (d : AdmissionDecision)
      : Type 0 where
    pub same_file : d.file_identity ≡ plan.file_identity
    pub same_path : d.relative_path ≡ plan.relative_path
    pub settled_stays : (is_admit plan.action ≡ true) ⊎ (d.action ≡ plan.action)
    pub admitted_iff : (is_admit d.action ≡ true) ↔ (
        (is_admit plan.action ≡ true)
        × (is_readable plan.pdf_classification (status_of cls plan.file_identity) ≡ true)
        × (m.base_chars + running + delta_of plan plan.action ≤ m.global_max_chars)
        × ((needs_slot plan.pdf_classification (status_of cls plan.file_identity) ≡ false)
            ⊎ (0 < slots)))
    pub charge : d.reserved_chars ≡ (if is_admit d.action then delta_of plan plan.action else 0)

  -- A list of decisions in one pass without backfill.
  abbrev pub OnePass : ℕ → ℕ → List ClassifiedPlan → List AdmissionDecision → Type 0
  OnePass running slots [] [] = Unit
  OnePass running slots (plan ∷ plans) (d ∷ ds) =
      IsVerdict running slots plan d
      × OnePass (running + d.reserved_chars) (slots - slot_of plan d) plans ds
  OnePass running slots _ _ = ⊥

  decide-IsVerdict :
      (a : PlanAction) (plan : ClassifiedPlan) (c : Counters)
      → plan.action ≡ a
      → m.global_max_chars < u64_max
      → let r = decide m s cls a plan c in
        IsVerdict c.running c.extraction_slots plan (decision_of m s cls plan r.0)
  unfolding decide admits
  decide-IsVerdict a plan c e g = ground arith

  decide_slots :
      (a : PlanAction) (plan : ClassifiedPlan) (c : Counters)
      → plan.action ≡ a
      → let r = decide m s cls a plan c in
        r.1.extraction_slots ≡ c.extraction_slots - slot_of plan (decision_of m s cls plan r.0)
  unfolding decide
  decide_slots a plan c e = ground arith

  decide_all-OnePass :
      (plans : List ClassifiedPlan) (c : Counters)
      → m.global_max_chars < u64_max
      → m.base_chars + c.running ≤ m.global_max_chars
      → OnePass c.running c.extraction_slots plans (decide_all m s cls plans c)
  unfolding decide_all
  decide_all-OnePass [] c g h = tt
  decide_all-OnePass (plan ∷ plans) c g h =
      let r = decide m s cls plan.action plan c in
      let (gained, fits) = decide_budget m s cls plan.action plan c g h in
      (
        decide-IsVerdict plan.action plan c refl g,
        rw (← gained, ← decide_slots plan.action plan c refl) (decide_all-OnePass plans r.1 g fits),
      )

  -- The plan is one pass in the given order: each decision is about its own file, a file that stage
  -- A settled keeps its action, and a file is admitted exactly when stage A admitted it, its body is
  -- readable, its reservation fits beside the base, the retained characters and the reservations of
  -- earlier files, and a slot is left where it needs one. It then reserves its worst-case section,
  -- and otherwise nothing. Later files are judged by what is left, so no file is passed over that
  -- fits.
  pub build_with_remaining-OnePass :
      (plans : List ClassifiedPlan) (retained slots : ℕ)
      → m.global_max_chars < u64_max
      → m.base_chars + retained ≤ m.global_max_chars
      → OnePass retained slots plans (build_with_remaining m s cls plans retained slots)
  unfolding build_with_remaining
  build_with_remaining-OnePass plans retained slots g h = decide_all-OnePass plans _ g h

  -- The extraction slots that a list of decisions takes.
  abbrev pub slots_taken : List ClassifiedPlan → List AdmissionDecision → ℕ
  slots_taken (plan ∷ plans) (d ∷ ds) = slot_of plan d + slots_taken plans ds
  slots_taken _ _ = 0

  slots_of-OnePass :
      (plans : List ClassifiedPlan) (ds : List AdmissionDecision) (running slots : ℕ)
      → OnePass running slots plans ds
      → slots_taken plans ds ≤ slots
  slots_of-OnePass [] [] running slots p = omega arith
  slots_of-OnePass [] (d ∷ ds) running slots p = absurd p
  slots_of-OnePass (plan ∷ plans) [] running slots p = absurd p
  slots_of-OnePass (plan ∷ plans) (d ∷ ds) running slots p = ground (
    arith,
    p.0.admitted_iff,
    slots_of-OnePass plans ds (running + d.reserved_chars) (slots - slot_of plan d) p.1,
  )

  -- No more PDFs with text are admitted than there are extraction slots.
  pub build_with_remaining_slots :
      (plans : List ClassifiedPlan) (retained slots : ℕ)
      → m.global_max_chars < u64_max
      → m.base_chars + retained ≤ m.global_max_chars
      → slots_taken plans (build_with_remaining m s cls plans retained slots) ≤ slots
  build_with_remaining_slots plans retained slots g h =
      slots_of-OnePass plans _ retained slots
        (build_with_remaining-OnePass plans retained slots g h)
