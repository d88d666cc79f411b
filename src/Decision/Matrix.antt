-- ===== src/Decision/Matrix.antt =====
-- Which action a parse status leads to.
use ai_daily_report.Prelude.{
  ℕ, Bool, true, false, [], Text, codes, length, ◌&&◌, ◌≡◌, ◌≤◌, ◌<◌, ◌↔◌, ◌⊎◌, inl, inr, refl,
  arith, ok, err, text_eq, Result-cases,
}
use ai_daily_report.Contract.Types.{ParseStatus, ContextAction}
use ai_daily_report.Contract.Profile.{ContextProfile}
use ai_daily_report.Audit.Types.{ParsedContentAudit}
use ai_daily_report.Audit.Validate.{is_some_and}
use ai_daily_report.Decision.Evidence.{ContextFileEvidence, validate_evidence, check_status}
use ai_daily_report.Decision.Actions.{
  DecidedFile, decide_file, status_action, number_or, decided_of, error_code_of, input_chars_of,
}

-- A metadata-only draft of a PDF without text.
abbrev pub is_no_text_draft : ContextFileEvidence → Bool
is_no_text_draft e =
    text_eq e.parser_backend (codes "pdf_metadata_v2")
    && is_some_and e.reason (λ r. text_eq r (codes "pdf_no_text_in_parse_window"))

-- The state matrix of a decided file.
pub record IsMatrix (profile : ContextProfile) (e : ContextFileEvidence) (d : DecidedFile)
    : Type 0 where
  pub about : d.evidence ≡ e
  pub errors :
      (d.decision.action ≡ ContextAction.error)
      ↔ ((e.parse_status ≡ ParseStatus.error) ⊎ (e.parse_status ≡ ParseStatus.timeout))
  pub omits : (d.decision.action ≡ ContextAction.omit) ↔ (e.parse_status ≡ ParseStatus.not_parsed)
  pub keeps : (d.decision.action ≡ ContextAction.keep) ↔ (
      (e.parse_status ≡ ParseStatus.success)
      × (is_no_text_draft e ≡ false)
      × (number_or e.size_bytes 0 ≤ profile.large_file_max_bytes)
      × (length e.content ≤ profile.per_file_max_chars)
      × (e.truncated ≡ false))
  pub metadata : (d.decision.action ≡ ContextAction.metadata_only) ↔ (
      (e.parse_status ≡ ParseStatus.success)
      × ((is_no_text_draft e ≡ true) ⊎ (profile.large_file_max_bytes < number_or e.size_bytes 0)))
  pub no_code :
      (d.decision.error_code ≡ [])
      ⊎ ((e.parse_status ≡ ParseStatus.error) ⊎ (e.parse_status ≡ ParseStatus.timeout))
  pub counts : d.decision.input_chars ≡ input_chars_of d.decision.action e

status_action_lem :
    (s : ParseStatus) (e : ContextFileEvidence) (profile : ContextProfile)
    (o : ContextAction × Text)
    → status_action s e profile ≡ ok o
    → ((o.0 ≡ ContextAction.error) ↔ ((s ≡ ParseStatus.error) ⊎ (s ≡ ParseStatus.timeout)))
      × ((o.0 ≡ ContextAction.omit) ↔ (s ≡ ParseStatus.not_parsed))
      × ((o.0 ≡ ContextAction.keep) ↔ (
          (s ≡ ParseStatus.success)
          × (is_no_text_draft e ≡ false)
          × (number_or e.size_bytes 0 ≤ profile.large_file_max_bytes)
          × (length e.content ≤ profile.per_file_max_chars)
          × (e.truncated ≡ false)))
      × ((o.0 ≡ ContextAction.metadata_only) ↔ (
          (s ≡ ParseStatus.success)
          × ((is_no_text_draft e ≡ true)
              ⊎ (profile.large_file_max_bytes < number_or e.size_bytes 0))))
unfolding status_action
status_action_lem s e profile o h = (ground arith, ground arith, ground arith, ground arith)

module _ (to_lowercase : Text → Text) (encoded_len : ParsedContentAudit → ℕ) where
  decide_file_inv :
      (profile : ContextProfile) (e : ContextFileEvidence) (d : DecidedFile)
      → decide_file to_lowercase encoded_len profile e ≡ ok d
      → (o : ContextAction × Text) × (validate_evidence encoded_len e ≡ ok tt)
        × (status_action e.parse_status e profile ≡ ok o)
        × (d ≡ decided_of to_lowercase encoded_len e o)
  unfolding decide_file
  decide_file_inv profile e d h = elim (Result-cases (status_action e.parse_status e profile)) [
    | inl (o, eq) ↦ (o, ground arith, eq, ground arith)
    | inr (x, eq) ↦ absurd (ground arith)
  ]

  valid_status :
      (e : ContextFileEvidence)
      → validate_evidence encoded_len e ≡ ok tt
      → check_status e.parse_status e.error e.reason ≡ ok tt
  unfolding validate_evidence
  valid_status e h = ground arith

  checked_action :
      (s : ParseStatus) (e : ContextFileEvidence) (profile : ContextProfile)
      → check_status s e.error e.reason ≡ ok tt
      → (o : ContextAction × Text) × (status_action s e profile ≡ ok o)
  unfolding check_status status_action
  checked_action s e profile h = elim (Result-cases (status_action s e profile)) [
    | inl (o, eq) ↦ (o, eq)
    | inr (x, eq) ↦ absurd (ground arith)
  ]

  pub decide_file-IsMatrix :
      (profile : ContextProfile) (e : ContextFileEvidence) (d : DecidedFile)
      → decide_file to_lowercase encoded_len profile e ≡ ok d
      → IsMatrix profile e d
  unfolding error_code_of
  decide_file-IsMatrix profile e d h =
      let (o, _, s, eq) = decide_file_inv profile e d h in
      let (errors, omits, keeps, metadata) = status_action_lem e.parse_status e profile o s in
      rw eq (record {
        about = refl;
        errors = errors;
        omits = omits;
        keeps = keeps;
        metadata = metadata;
        no_code = ground arith;
        counts = refl;
      })

  -- The decision of a file fails only where its evidence does not validate, with the message of the
  -- validation: the missing reason that would stop the program is never met.
  pub decide_file_err :
      (profile : ContextProfile) (e : ContextFileEvidence) (message : Text)
      → (decide_file to_lowercase encoded_len profile e ≡ err message)
        ↔ (validate_evidence encoded_len e ≡ err message)
  unfolding decide_file
  decide_file_err profile e message = elim (Result-cases (validate_evidence encoded_len e)) [
    | inl (done, v) ↦
        let (o, a) = checked_action e.parse_status e profile (valid_status e v) in
        (λ h. ground arith, λ h. ground arith)
    | inr (x, v) ↦ (λ h. ground arith, λ h. ground arith)
  ]
