-- ===== src/Admission/Quotas.antt =====
-- Stage A within its quotas: candidate slots and classification pages.
use mathlib.Core.List.{filter_map}
use mathlib.Core.List.Permᴰ
use ai_daily_report.Prelude.{
  ℕ, ◌-◌, ◌≤◌, ◌<◌, ◌≡◌, ◌⊎◌, refl, Bool, true, false, List, [], ◌∷◌, ◌++◌, Text, All, All-append,
  All-perm, sum_by, sum_by-append, sum_by-perm, arith, if◌then◌else◌,
}
use ai_daily_report.Prelude.Sorting.{sort_by_key, sort_by_key-perm}
use ai_daily_report.Nominal.{key_cmp}
use ai_daily_report.Contract.Profile.{NormalizedScannerSettings}
use ai_daily_report.Budget.Model.{RouteKind}
use ai_daily_report.Admission.Types.{
  PlanAction, PlanCandidate, PdfClassificationPlan, ClassifiedPlan,
}
use ai_daily_report.Admission.Classification.{
  triage, settle, offer, candidate_key, plan_key, assign, page_charge, build_with_remaining,
}

abbrev pub is_admit : PlanAction → Bool
is_admit (PlanAction.admit route) = true
is_admit _ = false

-- One for an admitted plan.
abbrev pub admitted : ClassifiedPlan → ℕ
admitted plan = if is_admit plan.action then 1 else 0

abbrev pub intent_pages : PdfClassificationPlan → ℕ
intent_pages (PdfClassificationPlan.classify pages) = pages
intent_pages _ = 0

-- The pages charged to a plan.
abbrev pub charged : ClassifiedPlan → ℕ
charged plan = intent_pages plan.pdf_classification

-- A charge is at least one page and at most the profile's limit, and goes to an admitted plan; an
-- exact one is the limit.
abbrev pub ChargeIn : Bool → ℕ → PdfClassificationPlan → PlanAction → Type 0
ChargeIn allow max_pages (PdfClassificationPlan.classify pages) action =
    (0 < pages)
    × (pages ≤ max_pages)
    × (action ≡ PlanAction.admit RouteKind.pdf)
    × ((allow ≡ true) ⊎ (pages ≡ max_pages))
ChargeIn allow max_pages _ action = Unit

module _ (to_lowercase : Text → Text) (s : NormalizedScannerSettings) where
  abbrev pub ChargeFits : Bool → ClassifiedPlan → Type 0
  ChargeFits allow plan = ChargeIn allow s.parse.pdf.max_pages plan.pdf_classification plan.action

  assign_slots :
      (allow : Bool) (slots pages : ℕ) (cs : List (PlanCandidate × RouteKind))
      → sum_by admitted (assign to_lowercase s allow slots pages cs) ≤ slots
  unfolding assign
  assign_slots allow slots pages [] = omega arith
  assign_slots allow slots pages ((file, route) ∷ rest) = ground (
    arith,
    assign_slots allow slots pages rest,
    assign_slots allow (slots - 1) pages rest,
    assign_slots allow (slots - 1) (pages - page_charge to_lowercase s allow pages) rest,
  )

  assign_pages :
      (allow : Bool) (slots pages : ℕ) (cs : List (PlanCandidate × RouteKind))
      → sum_by charged (assign to_lowercase s allow slots pages cs) ≤ pages
  unfolding assign
  assign_pages allow slots pages [] = omega arith
  assign_pages allow slots pages ((file, route) ∷ rest) = ground (
    arith,
    assign_pages allow slots pages rest,
    assign_pages allow (slots - 1) pages rest,
    assign_pages allow (slots - 1) (pages - page_charge to_lowercase s allow pages) rest,
  )

  assign_charges :
      (allow : Bool) (slots pages : ℕ) (cs : List (PlanCandidate × RouteKind))
      → All (ChargeFits allow) (assign to_lowercase s allow slots pages cs)
  unfolding assign
  assign_charges allow slots pages [] = tt
  assign_charges allow slots pages ((file, route) ∷ rest) = ground (
    arith,
    assign_charges allow slots pages rest,
    assign_charges allow (slots - 1) pages rest,
    assign_charges allow (slots - 1) (pages - page_charge to_lowercase s allow pages) rest,
  )

  settle_quota :
      (allow : Bool) (files : List PlanCandidate)
      → (sum_by admitted (filter_map (settle to_lowercase s) files) ≡ 0)
        × (sum_by charged (filter_map (settle to_lowercase s) files) ≡ 0)
        × All (ChargeFits allow) (filter_map (settle to_lowercase s) files)
  unfolding settle filter_map triage
  settle_quota allow [] = (refl, refl, tt)
  settle_quota allow (file ∷ files) = ground (arith, settle_quota allow files)

  -- A plan admits at most as many files as it has candidate slots, charges at most its page budget,
  -- and each charge goes to an admitted PDF, is at least one page and at most `pdf.max_pages`, and
  -- exactly that where partial charges are not allowed.
  pub build_with_remaining_quotas :
      (files : List PlanCandidate) (pages slots : ℕ) (allow : Bool)
      → let plan = build_with_remaining to_lowercase s files pages slots allow in
        (sum_by admitted plan ≤ slots) × (sum_by charged plan ≤ pages) × All (ChargeFits allow) plan
  unfolding build_with_remaining
  build_with_remaining_quotas files pages slots allow =
      let first = filter_map (settle to_lowercase s) files in
      let cs =
        sort_by_key key_cmp (candidate_key to_lowercase)
          (filter_map (offer to_lowercase s) files) in
      let second = assign to_lowercase s allow slots pages cs in
      let perm = sort_by_key-perm key_cmp (plan_key to_lowercase) (first ++ second) in
      let (none_admitted, none_charged, first_fits) = settle_quota allow files in
      (
        omega (
          arith,
          sum_by-perm admitted perm,
          sum_by-append admitted first second,
          assign_slots allow slots pages cs,
        ),
        omega (
          arith,
          sum_by-perm charged perm,
          sum_by-append charged first second,
          assign_pages allow slots pages cs,
        ),
        All-perm (ChargeFits allow) (Permᴰ.symm perm) (
            All-append (ChargeFits allow) first second first_fits
              (assign_charges allow slots pages cs)),
      )
