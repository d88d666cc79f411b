-- ===== src/Rendering/Added.antt =====
-- What each file adds to the context that is built.
use mathlib.Core.Path.{subst}
use ai_daily_report.Prelude.{
  ℕ, ◌+◌, ◌≤◌, ◌≡◌, inl, inr, refl, sym, ap, ◌∙◌, arith, true, false, List, [], ◌∷◌, ◌++◌, map,
  Text, count_if, ok, Result-cases, append-nil, if◌then◌else◌,
}
use ai_daily_report.Contract.Types.{ContextAction, ContextDecision}
use ai_daily_report.Contract.Profile.{ContextProfile}
use ai_daily_report.Audit.Types.{ParsedContentAudit}
use ai_daily_report.Budget.Omitted.{OmittedSummaryPlan}
use ai_daily_report.Decision.Actions.{DecidedFile}
use ai_daily_report.Rendering.Sections.{render_file_section}
use ai_daily_report.Rendering.Building.{
  include_file, BudgetedDecision, Building, include_file, omit_file, fail_file, counts_metadata,
  counts_compressed,
}
use ai_daily_report.Rendering.Context.{render_file, build_file_by, build_files}
use ai_daily_report.Rendering.Decided.{is_body}

-- What a file adds to the state.
pub record IsAdded (f : DecidedFile) (b c : Building) : Type 0 where
  pub decision : ContextDecision
  pub recorded :
      c.decisions
      ≡ b.decisions ++ record { file_identity = f.evidence.file_identity; decision = decision } ∷ []
  pub counted : c.included ≡ b.included + (if is_body f.decision.action then 1 else 0)
  pub kinds :
      c.metadata_only + c.compressed
      ≤ b.metadata_only + b.compressed + (if is_body f.decision.action then 1 else 0)

map_snoc {ℓ κ} :
    {A : Type ℓ} {B : Type κ} (f : A → B) (xs : List A) (x : A) (ys : List B)
    → map f (xs ++ x ∷ []) ++ ys ≡ map f xs ++ f x ∷ ys
map_snoc f [] x ys = refl
map_snoc f (y ∷ xs) x ys = ap (◌∷◌ (f y)) (map_snoc f xs x ys)

kinds_le : (a : ContextAction) → counts_metadata a + counts_compressed a ≤ 1
kinds_le a = ground arith

module _ (to_lowercase trim_end : Text → Text) (encoded_len : ParsedContentAudit → ℕ) where
  render_file-IsAdded :
      (profile : ContextProfile) (b : Building) (f : DecidedFile) (c : Building)
      → is_body f.decision.action ≡ true
      → render_file to_lowercase trim_end encoded_len profile b f ≡ ok c
      → IsAdded f b c
  unfolding render_file
  render_file-IsAdded profile b f c body h =
      let rendered = render_file_section f.evidence f.decision profile in
      let e : c ≡ include_file b f rendered = ground arith in
      rw e (record {
        decision = rendered.1;
        recorded = refl;
        counted = ground arith;
        kinds = ground (arith, kinds_le rendered.1.action);
      })

  other-IsAdded :
      (f : DecidedFile) (b c d : Building) (decision : ContextDecision)
      → is_body f.decision.action ≡ false
      → d ≡ c
      → d.decisions
        ≡ b.decisions
          ++ record { file_identity = f.evidence.file_identity; decision = decision } ∷ []
      → d.included ≡ b.included
      → d.metadata_only ≡ b.metadata_only
      → d.compressed ≡ b.compressed
      → IsAdded f b c
  other-IsAdded f b c d decision body e recorded included metadata compressed =
      subst (IsAdded f b) e (record {
        decision = decision;
        recorded = recorded;
        counted = ground arith;
        kinds = ground arith;
      })

  build_file_by-IsAdded :
      (a : ContextAction) (profile : ContextProfile) (plan : OmittedSummaryPlan) (b : Building)
      (f : DecidedFile) (c : Building)
      → f.decision.action ≡ a
      → build_file_by to_lowercase trim_end encoded_len a profile plan b f ≡ ok c
      → IsAdded f b c
  unfolding fail_file
  build_file_by-IsAdded ContextAction.omit profile plan b f c e h =
      other-IsAdded f b c (omit_file plan b f) (record f.decision { output_chars = 0 }) (rw e refl)
        (ground arith) refl refl refl refl
  build_file_by-IsAdded ContextAction.error profile plan b f c e h =
      other-IsAdded f b c (fail_file b f) _ (rw e refl) (ground arith) refl refl refl refl
  build_file_by-IsAdded ContextAction.keep profile plan b f c e h =
      render_file-IsAdded profile b f c (rw e refl) h
  build_file_by-IsAdded ContextAction.compress profile plan b f c e h =
      render_file-IsAdded profile b f c (rw e refl) h
  build_file_by-IsAdded ContextAction.metadata_only profile plan b f c e h =
      render_file-IsAdded profile b f c (rw e refl) h

  -- What the files of the loop add up to.
  pub build_files_inv :
      (profile : ContextProfile) (plan : OmittedSummaryPlan) (b : Building) (fs : List DecidedFile)
      (c : Building)
      → build_files to_lowercase trim_end encoded_len profile plan b fs ≡ ok c
      → (c.included ≡ b.included + count_if (λ f. is_body f.decision.action) fs)
        × (c.metadata_only + c.compressed
            ≤ b.metadata_only + b.compressed + count_if (λ f. is_body f.decision.action) fs)
        × (map (λ (r : BudgetedDecision). r.file_identity) c.decisions
            ≡ map (λ (r : BudgetedDecision). r.file_identity) b.decisions
              ++ map (λ (f : DecidedFile). f.evidence.file_identity) fs)
  unfolding build_files
  build_files_inv profile plan b [] c h =
      let e : b ≡ c = ground arith in rw (← e) (omega arith, omega arith, sym (append-nil _))
  build_files_inv profile plan b (f ∷ fs) c h =
      elim (Result-cases
        (build_file_by to_lowercase trim_end encoded_len f.decision.action profile plan b f)) [
          | inl (built, p) ↦
              let i = build_file_by-IsAdded f.decision.action profile plan b f built refl p in
              let (n, k, ids) = build_files_inv profile plan built fs c (ground arith) in
              (
                ground (arith, i.counted, n),
                ground (arith, i.kinds, k),
                ids
                    ∙ ap
                        (λ ds.
                          map (λ (r : BudgetedDecision). r.file_identity) ds
                          ++ map (λ (f : DecidedFile). f.evidence.file_identity) fs)
                        i.recorded
                    ∙ map_snoc (λ (r : BudgetedDecision). r.file_identity) b.decisions _ _,
              )
          | inr (x, p) ↦ absurd (ground arith)
        ]
