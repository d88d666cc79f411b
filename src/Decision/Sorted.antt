-- ===== src/Decision/Sorted.antt =====
-- All decisions of a run: one for each piece of evidence, in nominal order, whatever the order of
-- the input.
use mathlib.Core.List.{Permᴰ, Pairwise-map}
use mathlib.Core.List.Permᴰ
use mathlib.Core.HLevel.{¬_prop}
use ai_daily_report.Prelude.{
  ℕ, List, [], ◌∷◌, map, Text, ◌≡◌, ◌≢◌, refl, sym, ap, inl, inr, arith, ok, Result-cases,
}
use ai_daily_report.Prelude.Sorting.{
  sort_by_key, sort_by_key-perm, sort_by_key-canonical, sort_by_key-IsSorted, HasDistinctKeys,
  IsSorted,
}
use ai_daily_report.Nominal.{key_cmp}
use ai_daily_report.Nominal.Order.{key_cmp-IsOrder}
use ai_daily_report.Contract.Profile.{ContextProfile}
use ai_daily_report.Audit.Types.{ParsedContentAudit}
use ai_daily_report.Decision.Evidence.{ContextFileEvidence}
use ai_daily_report.Decision.Actions.{
  DecidedFile, decide_file, decide_each, decide_files, evidence_key, decided_key,
}
use ai_daily_report.Decision.Matrix.{decide_file-IsMatrix}

module _ (to_lowercase : Text → Text) (encoded_len : ParsedContentAudit → ℕ)
    (profile : ContextProfile) where
  decide_each_inv :
      (e : ContextFileEvidence) (es : List ContextFileEvidence) (ds : List DecidedFile)
      → decide_each to_lowercase encoded_len profile (e ∷ es) ≡ ok ds
      → (d : DecidedFile) × (rest : List DecidedFile) × (decide_file to_lowercase encoded_len
            profile e
          ≡ ok d)
        × (decide_each to_lowercase encoded_len profile es ≡ ok rest)
        × (ds ≡ d ∷ rest)
  unfolding decide_each
  decide_each_inv e es ds h = elim (Result-cases (decide_file to_lowercase encoded_len profile e)) [
    | inl (d, p) ↦ elim (Result-cases (decide_each to_lowercase encoded_len profile es)) [
      | inl (rest, q) ↦ (d, rest, p, q, ground arith)
      | inr (x, q) ↦ absurd (ground arith)
    ]
    | inr (x, p) ↦ absurd (ground arith)
  ]

  decide_each_cons :
      (e : ContextFileEvidence) (es : List ContextFileEvidence) (d : DecidedFile)
      (ds : List DecidedFile)
      → decide_file to_lowercase encoded_len profile e ≡ ok d
      → decide_each to_lowercase encoded_len profile es ≡ ok ds
      → decide_each to_lowercase encoded_len profile (e ∷ es) ≡ ok (d ∷ ds)
  unfolding decide_each
  decide_each_cons e es d ds p q = rw (p, q) refl

  decide_each_evidence :
      (es : List ContextFileEvidence) (ds : List DecidedFile)
      → decide_each to_lowercase encoded_len profile es ≡ ok ds
      → map (λ d. d.evidence) ds ≡ es
  unfolding decide_each
  decide_each_evidence [] ds h = ground arith
  decide_each_evidence (e ∷ es) ds h =
      let (d, rest, p, q, eq) = decide_each_inv e es ds h in
      let m = decide_file-IsMatrix to_lowercase encoded_len profile e d p in
      rw (eq, m.about, decide_each_evidence es rest q) refl

  decide_each-perm :
      {es es' : List ContextFileEvidence}
      → Permᴰ es es'
      → (ds : List DecidedFile) → decide_each to_lowercase encoded_len profile es ≡ ok ds
      → (ds' : List DecidedFile) × (decide_each to_lowercase encoded_len profile es' ≡ ok ds')
        × Permᴰ ds ds'
  decide_each-perm Permᴰ.nil ds h = (ds, h, Permᴰ.refl ds)
  decide_each-perm (Permᴰ.cons {a = x} {b = y} {l₁ = l} {l₂ = l'} e p) ds h =
      let (d, rest, f, q, eq) = decide_each_inv x l ds h in
      let (rest', q', r) = decide_each-perm p rest q in
      (d ∷ rest', decide_each_cons y l' d rest' (rw (← e) f) q', rw eq (Permᴰ.cons refl r))
  decide_each-perm (Permᴰ.trans p q) ds h =
      let (ds', h', r) = decide_each-perm p ds h in
      let (ds″, h″, r') = decide_each-perm q ds' h' in (ds″, h″, Permᴰ.trans r r')
  decide_each-perm (Permᴰ.swap {a = x} {b = y} {l = l} e e') ds h =
      let (d, rest, f, q, eq) = decide_each_inv x (y ∷ l) ds h in
      let (d', rest', f', q', eq') = decide_each_inv y l rest q in
      let again = decide_each_cons x l d rest' f q' in
      (
        d' ∷ d ∷ rest',
        rw (← e, ← e') (decide_each_cons y (x ∷ l) d' (d ∷ rest') f' again),
        rw (eq, eq') (Permᴰ.swap refl refl),
      )

  decide_files_inv :
      (es : List ContextFileEvidence) (ds : List DecidedFile)
      → decide_files to_lowercase encoded_len es profile ≡ ok ds
      → (each : List DecidedFile) × (decide_each to_lowercase encoded_len profile es ≡ ok each)
        × (ds ≡ sort_by_key key_cmp (decided_key to_lowercase encoded_len) each)
  unfolding decide_files
  decide_files_inv es ds h = elim (Result-cases (decide_each to_lowercase encoded_len profile es)) [
    | inl (each, q) ↦ (each, q, ground arith)
    | inr (x, q) ↦ absurd (ground arith)
  ]

  -- A successful run decides each piece of evidence once, and its decisions stand in nominal order.
  pub decide_files_complete :
      (es : List ContextFileEvidence) (ds : List DecidedFile)
      → decide_files to_lowercase encoded_len es profile ≡ ok ds
      → Permᴰ (map (λ d. d.evidence) ds) es
        × IsSorted key_cmp (decided_key to_lowercase encoded_len) ds
  decide_files_complete es ds h =
      let (each, q, eq) = decide_files_inv es ds h in
      let key = decided_key to_lowercase encoded_len in
      rw eq (
        rw (← decide_each_evidence es each q)
            (Permᴰ.map (λ d. d.evidence) (sort_by_key-perm key_cmp key each)),
        sort_by_key-IsSorted key_cmp-IsOrder key each,
      )

  -- Evidence with distinct nominal keys gets the same decisions in whatever order it arrives.
  pub decide_files-canonical :
      {es es' : List ContextFileEvidence} (ds : List DecidedFile)
      → Permᴰ es es'
      → HasDistinctKeys key_cmp (evidence_key to_lowercase encoded_len) es
      → decide_files to_lowercase encoded_len es profile ≡ ok ds
      → decide_files to_lowercase encoded_len es' profile ≡ ok ds
  unfolding decide_files
  decide_files-canonical {es} {es'} ds p distinct h =
      let (each, q, eq) = decide_files_inv es ds h in
      let (each', q', r) = decide_each-perm p each q in
      let key = evidence_key to_lowercase encoded_len in
      let d : HasDistinctKeys key_cmp (decided_key to_lowercase encoded_len) each =
        (Pairwise-map {R = λ a b. key a ≢ key b} (λ _ _. ¬_prop) (λ d. d.evidence) {l = each}).0
          (rw (decide_each_evidence es each q) distinct) in
      rw (q', eq)
        (ap ok
          (sym (sort_by_key-canonical key_cmp-IsOrder (decided_key to_lowercase encoded_len) r d)))
