-- ===== src/Audit/Runs.antt =====
-- Whatever the calls, the finished audit is a valid audit of the finished text.
use mathlib.Core.Path.{subst}
use ai_daily_report.Prelude.{
  ℕ, ◌≤◌, ◌≡◌, inl, inr, refl, ap, sym, ◌∙◌, true, none, some, List, [], ◌∷◌, Text, length,
  contains, arith, All, ok, Bool-cases,
}
use ai_daily_report.Contract.Checks.{check_each}
use ai_daily_report.Audit.Types.{SourceRange, ContentUnit, ContentUnitKind, ParsedContentAudit}
use ai_daily_report.Audit.Validate.{validate_range, validate_units, validate_audit, formats}
use ai_daily_report.Audit.Builder.{
  AuditTextBuilder, new_builder, read, push, finish, finish_if, is_unusable, metadata_budget,
}
use ai_daily_report.Audit.Built.{
  IsListed, IsBuilt, new_builder-IsBuilt, read-IsBuilt, push_trimmed-IsBuilt,
}

-- A call of the builder.
pub data Call : Type 0 where
  read_call : SourceRange → Call
  push_call : Text → ContentUnitKind → List SourceRange → Call

-- The ranges of a call are valid, and no unit has more than 128.
abbrev pub IsCall : Call → Type 0
IsCall (read_call range) = validate_range range ≡ ok tt
IsCall (push_call text kind ranges) =
    (length ranges ≤ 128) × (check_each validate_range ranges ≡ ok tt)

module _ (encoded_len : ParsedContentAudit → ℕ) (trim : Text → Text) where
  abbrev pub call : AuditTextBuilder → Call → AuditTextBuilder
  call b (read_call range) = read encoded_len b range
  call b (push_call text kind ranges) = (push encoded_len trim b text kind ranges).1

  abbrev pub call_all : AuditTextBuilder → List Call → AuditTextBuilder
  call_all b [] = b
  call_all b (c ∷ cs) = call_all (call b c) cs

  call-IsBuilt :
      (name : Text) (b : AuditTextBuilder) (c : Call)
      → IsBuilt name b
      → IsCall c
      → IsBuilt name (call b c)
  unfolding push
  call-IsBuilt name b (read_call range) i v = read-IsBuilt encoded_len name b range i v
  call-IsBuilt name b (push_call text kind ranges) i v =
      push_trimmed-IsBuilt encoded_len name b (trim text) kind ranges i v.0 v.1

  call_all-IsBuilt :
      (name : Text) (b : AuditTextBuilder) (cs : List Call)
      → IsBuilt name b
      → All IsCall cs
      → IsBuilt name (call_all b cs)
  call_all-IsBuilt name b [] i v = i
  call_all-IsBuilt name b (c ∷ cs) i v =
      call_all-IsBuilt name (call b c) cs (call-IsBuilt name b c i v.0) v.1

validate_audit-built :
    (encoded_len : ParsedContentAudit → ℕ) (audit : ParsedContentAudit) (content : Text)
    (us : List ContentUnit) (n : ℕ) (name : Text)
    → audit.archive ≡ none
    → audit.version ≡ 1
    → audit.encoding ≡ none
    → audit.detected_format ≡ some name
    → contains formats name ≡ true
    → IsListed audit.read_ranges
    → audit.content_units ≡ some us
    → length us ≤ 512
    → validate_units (length content) [] 0 us ≡ ok tt
    → audit.usable_chars ≡ some n
    → n ≤ length content
    → encoded_len audit ≤ metadata_budget
    → validate_audit encoded_len audit content ≡ ok tt
unfolding validate_audit
validate_audit-built encoded_len audit content us n name a v e f k l c s u w le b = ground arith

finish-IsBuilt :
    (encoded_len : ParsedContentAudit → ℕ) (name : Text) (b : AuditTextBuilder)
    → IsBuilt name b
    → contains formats name ≡ true
    → encoded_len (finish b).1 ≤ metadata_budget
    → validate_audit encoded_len (finish b).1 (finish b).0 ≡ ok tt
unfolding finish validate_units
finish-IsBuilt encoded_len name b i known short =
    let (us, e, few, checked, numbered) = i.units in
    let (n, u, le) = i.usable in
    let same = ap (λ k. validate_units k [] 0 us) (sym i.chars) in
    elim (Bool-cases (is_unusable b.audit.usable_chars)) [
      | inl unusable ↦
          let short' =
            subst (λ t. encoded_len (finish_if t b).1 ≤ metadata_budget) unusable short in
          rw unusable (
            validate_audit-built encoded_len (record b.audit { content_units = some [] }) [] [] n
              name i.archive i.version i.encoding i.format known i.listed refl (omega arith) refl u
              (ground arith) short')
      | inr some_usable ↦
          let short' =
            subst (λ t. encoded_len (finish_if t b).1 ≤ metadata_budget) some_usable short in
          rw some_usable (
            validate_audit-built encoded_len b.audit b.content us n name i.archive i.version
              i.encoding i.format known i.listed e few (same ∙ checked) u (omega (arith, i.chars))
              short')
    ]

-- From a new builder of a known format, any calls with valid ranges, and `finish`, the audit
-- validates against the text wherever its encoding keeps to the metadata budget.
pub finish-validate_audit :
    (encoded_len : ParsedContentAudit → ℕ) (trim : Text → Text) (max_chars : ℕ) (name : Text)
    (cs : List Call)
    → contains formats name ≡ true
    → All IsCall cs
    → encoded_len (finish (call_all encoded_len trim (new_builder max_chars name) cs)).1
      ≤ metadata_budget
    → let built = finish (call_all encoded_len trim (new_builder max_chars name) cs) in
      validate_audit encoded_len built.1 built.0 ≡ ok tt
finish-validate_audit encoded_len trim max_chars name cs known valid short =
    finish-IsBuilt encoded_len name (call_all encoded_len trim (new_builder max_chars name) cs)
      (call_all-IsBuilt encoded_len trim name (new_builder max_chars name) cs
        (new_builder-IsBuilt max_chars name) valid)
      known short
