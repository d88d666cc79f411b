-- ===== src/Rendering/Decided.antt =====
-- A decision renders a file exactly where the file was parsed.
use mathlib.Core.Path.{subst}
use mathlib.Core.List.Permᴰ
use ai_daily_report.Prelude.{
  ℕ, ◌≡◌, inl, inr, arith, Bool, true, false, List, [], ◌∷◌, Text, ok, All, All-perm, Option-cases,
  Result-cases,
}
use ai_daily_report.Prelude.Sorting.{sort_by_key, sort_by_key-perm}
use ai_daily_report.Nominal.{key_cmp}
use ai_daily_report.Contract.Types.{ParseStatus, ContextAction}
use ai_daily_report.Contract.Profile.{ContextProfile}
use ai_daily_report.Audit.Types.{ParsedContentAudit}
use ai_daily_report.Decision.Evidence.{ContextFileEvidence}
use ai_daily_report.Decision.Actions.{
  DecidedFile, decided_key, decide_file, decide_each, decide_files, status_action, success_action,
}
use ai_daily_report.Rendering.Building.{is_success}

-- A file with this action gets a section.
abbrev pub is_body : ContextAction → Bool
is_body ContextAction.omit = false
is_body ContextAction.error = false
is_body _ = true

-- A decision renders a file exactly where it was parsed.
abbrev pub IsDecided : DecidedFile → Type 0
IsDecided f = is_body f.decision.action ≡ is_success f.evidence.parse_status

success_action-is_body :
    (e : ContextFileEvidence) (profile : ContextProfile)
    → is_body (success_action e profile).0 ≡ true
unfolding success_action
success_action-is_body e profile = ground arith

status_action-is_body :
    (s : ParseStatus) (e : ContextFileEvidence) (profile : ContextProfile)
    (outcome : ContextAction × Text)
    → status_action s e profile ≡ ok outcome
    → is_body outcome.0 ≡ is_success s
unfolding status_action
status_action-is_body ParseStatus.success e profile outcome h =
    ground (arith, success_action-is_body e profile)
status_action-is_body ParseStatus.error e profile outcome h = ground arith
status_action-is_body ParseStatus.timeout e profile outcome h = ground arith
status_action-is_body ParseStatus.not_parsed e profile outcome h = elim (Option-cases e.reason) [
  | inl n ↦ absurd (ground arith)
  | inr (r, n) ↦ ground arith
]

module _ (to_lowercase : Text → Text) (encoded_len : ParsedContentAudit → ℕ)
    (profile : ContextProfile) where
  decide_file-IsDecided :
      (e : ContextFileEvidence) (f : DecidedFile)
      → decide_file to_lowercase encoded_len profile e ≡ ok f
      → IsDecided f
  unfolding decide_file
  decide_file-IsDecided e f h = elim (Result-cases (status_action e.parse_status e profile)) [
    | inl (outcome, s) ↦
        let a : f.decision.action ≡ outcome.0 = ground arith in
        let b : f.evidence.parse_status ≡ e.parse_status = ground arith in
        rw (a, b) (status_action-is_body e.parse_status e profile outcome s)
    | inr (x, s) ↦ absurd (ground arith)
  ]

  decide_each-IsDecided :
      (es : List ContextFileEvidence) (fs : List DecidedFile)
      → decide_each to_lowercase encoded_len profile es ≡ ok fs
      → All IsDecided fs
  unfolding decide_each
  decide_each-IsDecided [] fs h = let e : [] ≡ fs = ground arith in subst (All IsDecided) e tt
  decide_each-IsDecided (e ∷ es) fs h =
      elim (Result-cases (decide_file to_lowercase encoded_len profile e)) [
        | inl (f, p) ↦ elim (Result-cases (decide_each to_lowercase encoded_len profile es)) [
          | inl (rest, q) ↦
              let both : f ∷ rest ≡ fs = ground arith in
              subst (All IsDecided) both
                (decide_file-IsDecided e f p, decide_each-IsDecided es rest q)
          | inr (x, q) ↦ absurd (ground arith)
        ]
        | inr (x, p) ↦ absurd (ground arith)
      ]

  pub decide_files-IsDecided :
      (es : List ContextFileEvidence) (fs : List DecidedFile)
      → decide_files to_lowercase encoded_len es profile ≡ ok fs
      → All IsDecided fs
  unfolding decide_files
  decide_files-IsDecided es fs h =
      elim (Result-cases (decide_each to_lowercase encoded_len profile es)) [
        | inl (each, q) ↦
            let key = decided_key to_lowercase encoded_len in
            let e : sort_by_key key_cmp key each ≡ fs = ground arith in
            subst (All IsDecided) e (
              All-perm IsDecided (Permᴰ.symm (sort_by_key-perm key_cmp key each))
                (decide_each-IsDecided es each q))
        | inr (x, q) ↦ absurd (ground arith)
      ]
