-- ===== src/Admission/Order.antt =====
-- Stage A as a whole: one plan for each file, in nominal order, whatever the order of the input.
use mathlib.Core.List.{filter_map, Permᴰ, Pairwise, Pairwise-map, Pairwise-append, map-append}
use mathlib.Core.List.Permᴰ
use mathlib.Core.HLevel.{¬_prop}
use ai_daily_report.Prelude.{
  ℕ, ◌-◌, ◌≡◌, ◌≢◌, refl, sym, ap, ◌↔◌, ◌∙◌, Bool, List, [], ◌∷◌, ◌++◌, map, Text, arith, inl, inr,
  ◌⊎◌,
}
use ai_daily_report.Prelude.Sorting.{
  sort_by_key, sort_by_key-perm, sort_by_key-canonical, sort_by_key-IsSorted, HasDistinctKeys,
  IsSorted,
}
use ai_daily_report.Nominal.{NominalKey, nominal_key, key_cmp}
use ai_daily_report.Nominal.Order.{key_cmp-IsOrder}
use ai_daily_report.Contract.Profile.{NormalizedScannerSettings}
use ai_daily_report.Budget.Model.{RouteKind}
use ai_daily_report.Admission.Types.{PlanCandidate, ClassifiedPlan, PlanAction}
use ai_daily_report.Admission.Classification.{
  triage, Triage, settled, candidate, settle, offer, file_key, candidate_key, plan_key, assign,
  page_charge, build_with_remaining,
}

-- What names a file: its path, its extension and its identity.
abbrev pub Names : Type 0
Names = Text × Text × Text

abbrev pub file_names : PlanCandidate → Names
file_names file = (file.relative_path, file.extension, file.file_identity)

abbrev pub plan_names : ClassifiedPlan → Names
plan_names plan = (plan.relative_path, plan.extension, plan.file_identity)

abbrev candidate_names : PlanCandidate × RouteKind → Names
candidate_names c = file_names c.0

module _ (to_lowercase : Text → Text) where
  abbrev names_key : Names → NominalKey
  names_key n = nominal_key to_lowercase n.0 n.1 n.2

  -- No two names have the same key.
  abbrev DistinctNames : List Names → Type 0
  DistinctNames = Pairwise (λ a b. names_key a ≢ names_key b)

  DistinctNames-iff {ℓ} :
      {A : Type ℓ} (f : A → Names) (xs : List A)
      → DistinctNames (map f xs) ↔ HasDistinctKeys key_cmp (λ x. names_key (f x)) xs
  DistinctNames-iff f xs =
      Pairwise-map {R = λ a b. names_key a ≢ names_key b} (λ _ _. ¬_prop) f {l = xs}

  DistinctNames-perm : {ns ms : List Names} → Permᴰ ns ms → DistinctNames ns → DistinctNames ms
  DistinctNames-perm = Permᴰ.pairwise (λ _ _. ¬_prop) (λ _ _ ne e. ne (sym e))

  module _ (s : NormalizedScannerSettings) where
    assign_names :
        (allow : Bool) (slots pages : ℕ) (cs : List (PlanCandidate × RouteKind))
        → map plan_names (assign to_lowercase s allow slots pages cs) ≡ map candidate_names cs
    unfolding assign
    assign_names allow slots pages [] = refl
    assign_names allow slots pages ((file, route) ∷ rest) = ground (
      arith,
      assign_names allow slots pages rest,
      assign_names allow (slots - 1) pages rest,
      assign_names allow (slots - 1) (pages - page_charge to_lowercase s allow pages) rest,
    )

    Triage-cases :
        (t : Triage) → ((a : PlanAction) × (t ≡ settled a)) ⊎ ((r : RouteKind) × (t ≡ candidate r))
    Triage-cases (settled a) = inl (a, refl)
    Triage-cases (candidate r) = inr (r, refl)

    first_pass_names :
        (files : List PlanCandidate)
        → Permᴰ
            (map plan_names (filter_map (settle to_lowercase s) files)
              ++ map candidate_names (filter_map (offer to_lowercase s) files))
            (map file_names files)
    unfolding settle offer filter_map
    first_pass_names [] = Permᴰ.nil
    first_pass_names (file ∷ files) = elim (Triage-cases (triage s file)) [
      | inl (a, e) ↦ rw (e, filter_map, settle, offer) (Permᴰ.cons refl (first_pass_names files))
      | inr (r, e) ↦
          rw (e, filter_map, settle, offer)
            (Permᴰ.trans
              (Permᴰ.middle (file_names file)
                (map plan_names (filter_map (settle to_lowercase s) files))
                (map candidate_names (filter_map (offer to_lowercase s) files)))
              (Permᴰ.cons refl (first_pass_names files)))
    ]

    module _ (allow : Bool) (slots pages : ℕ) (files : List PlanCandidate) where
      -- The two passes before the final sort.
      abbrev unsorted : List ClassifiedPlan
      unsorted =
          filter_map (settle to_lowercase s) files
          ++ assign to_lowercase s allow slots pages (
              sort_by_key key_cmp (candidate_key to_lowercase)
                (filter_map (offer to_lowercase s) files))

      unsorted-names : Permᴰ (map plan_names unsorted) (map file_names files)
      unsorted-names =
          let first = filter_map (settle to_lowercase s) files in
          let cs = filter_map (offer to_lowercase s) files in
          rw
            (
              map-append plan_names first (
                  assign to_lowercase s allow slots pages
                    (sort_by_key key_cmp (candidate_key to_lowercase) cs)),
              assign_names allow slots pages (sort_by_key key_cmp (candidate_key to_lowercase) cs),
            )
            (Permᴰ.trans
              (Permᴰ.append_left (map plan_names first) (
                Permᴰ.map candidate_names
                  (sort_by_key-perm key_cmp (candidate_key to_lowercase) cs)))
              (first_pass_names files))

      -- The plan holds one entry for each file, under the file's path, extension and identity, and
      -- its entries stand in nominal order.
      pub build_with_remaining_complete :
          let plan = build_with_remaining to_lowercase s files pages slots allow in
          Permᴰ (map plan_names plan) (map file_names files)
          × IsSorted key_cmp (plan_key to_lowercase) plan
      unfolding build_with_remaining
      build_with_remaining_complete = (
        Permᴰ.trans
            (Permᴰ.map plan_names (sort_by_key-perm key_cmp (plan_key to_lowercase) unsorted))
            unsorted-names,
        sort_by_key-IsSorted key_cmp-IsOrder (plan_key to_lowercase) unsorted,
      )

    offers_distinct :
        (files : List PlanCandidate)
        → HasDistinctKeys key_cmp (file_key to_lowercase) files
        → HasDistinctKeys key_cmp
            (candidate_key to_lowercase)
            (filter_map (offer to_lowercase s) files)
    offers_distinct files d =
        let named =
          DistinctNames-perm (Permᴰ.symm (first_pass_names files))
            ((DistinctNames-iff file_names files).1 d) in
        (DistinctNames-iff candidate_names (filter_map (offer to_lowercase s) files)).0
          ((Pairwise-append {R = λ a b. names_key a ≢ names_key b} (λ _ _. ¬_prop)).0 named).1

    -- Files with distinct nominal keys get the same plan in whatever order discovery found them.
    pub build_with_remaining-canonical :
        (allow : Bool) (slots pages : ℕ) {files files' : List PlanCandidate}
        → Permᴰ files files'
        → HasDistinctKeys key_cmp (file_key to_lowercase) files
        → build_with_remaining to_lowercase s files pages slots allow
          ≡ build_with_remaining to_lowercase s files' pages slots allow
    unfolding build_with_remaining
    build_with_remaining-canonical allow slots pages {files} {files'} p d =
        let cs =
          sort_by_key-canonical key_cmp-IsOrder (candidate_key to_lowercase)
            (Permᴰ.filter_map (offer to_lowercase s) p) (offers_distinct files d) in
        sort_by_key-canonical key_cmp-IsOrder (plan_key to_lowercase)
          {xs = unsorted allow slots pages files}
          (Permᴰ.append_right _ (Permᴰ.filter_map (settle to_lowercase s) p))
          ((DistinctNames-iff plan_names (unsorted allow slots pages files)).0 (
            DistinctNames-perm (Permᴰ.symm (unsorted-names allow slots pages files))
              ((DistinctNames-iff file_names files).1 d)))
        ∙ ap
            (λ l. sort_by_key key_cmp (plan_key to_lowercase) (
              filter_map (settle to_lowercase s) files'
              ++ assign to_lowercase s allow slots pages l))
            cs
