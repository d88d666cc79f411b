-- ===== src/Audit/Built.antt =====
-- What the builder builds is a valid audit of the text that it builds.
use mathlib.Core.Path.{subst}
use ai_daily_report.Prelude.{
  ℕ, ◌+◌, ◌≤◌, ◌<◌, ◌≡◌, inl, inr, refl, sym, ◌∙◌, true, Option, none, some, List, [], ◌∷◌, ◌++◌,
  Text, length, leb, ltb, ◌||◌, length-show, length-append, arith, ok, Bool-cases,
}
use ai_daily_report.Contract.Checks.{check_each}
use ai_daily_report.Audit.Types.{SourceRange, ContentUnit, ContentUnitKind, ParsedContentAudit}
use ai_daily_report.Audit.Validate.{validate_range, validate_units, flatten_option}
use ai_daily_report.Audit.Append.{
  check_each-append, IsFresh, validate_units-append, unit_name, IsNumbered, IsNumbered-append,
  IsFresh-unit_name,
}
use ai_daily_report.Audit.Builder.{
  AuditTextBuilder, new_builder, read, read_into, push_trimmed, next_unit, push_unit, grow,
  separator, metadata_budget,
}

-- The ranges that the audit lists are few and valid.
abbrev pub IsListed : Option (List SourceRange) → Type 0
IsListed none = Unit
IsListed (some ranges) = (length ranges ≤ 512) × (check_each validate_range ranges ≡ ok tt)

-- The state that `new` makes and every call keeps.
pub record IsBuilt (name : Text) (b : AuditTextBuilder) : Type 0 where
  pub chars : b.chars ≡ length b.content
  pub fits : b.chars ≤ b.max_chars
  pub archive : b.audit.archive ≡ none
  pub version : b.audit.version ≡ 1
  pub encoding : b.audit.encoding ≡ none
  pub format : b.audit.detected_format ≡ some name
  pub listed : IsListed b.audit.read_ranges
  pub units :
      (us : List ContentUnit) × (b.audit.content_units ≡ some us)
      × (length us ≤ 512)
      × (validate_units b.chars [] 0 us ≡ ok tt)
      × IsNumbered 1 us
  pub usable : (n : ℕ) × (b.audit.usable_chars ≡ some n) × (n ≤ b.chars)

pub new_builder-IsBuilt :
    (max_chars : ℕ) (format : Text) → IsBuilt format (new_builder max_chars format)
unfolding new_builder validate_units
new_builder-IsBuilt max_chars format = record {
  chars = refl;
  fits = omega arith;
  archive = refl;
  version = refl;
  encoding = refl;
  format = refl;
  listed = (omega arith, refl);
  units = ([], refl, omega arith, refl, tt);
  usable = (0, refl, omega arith);
}

module _ (encoded_len : ParsedContentAudit → ℕ) where
  read_into-IsListed :
      (o : Option (List SourceRange)) (audit : ParsedContentAudit) (range : SourceRange)
      → audit.read_ranges ≡ o
      → IsListed o
      → validate_range range ≡ ok tt
      → IsListed (read_into encoded_len o audit range).read_ranges
  read_into-IsListed none audit range e l v = rw e tt
  read_into-IsListed (some ranges) audit range e l v = ground (
    arith,
    check_each-append validate_range ranges range l.1 v,
    length-append ranges (range ∷ []),
  )

  same_but_ranges :
      (o : Option (List SourceRange)) (audit : ParsedContentAudit) (range : SourceRange)
      → let after = read_into encoded_len o audit range in
        (after.archive ≡ audit.archive)
        × (after.version ≡ audit.version)
        × (after.encoding ≡ audit.encoding)
        × (after.detected_format ≡ audit.detected_format)
        × (after.content_units ≡ audit.content_units)
        × (after.usable_chars ≡ audit.usable_chars)
  same_but_ranges none audit range = (refl, refl, refl, refl, refl, refl)
  same_but_ranges (some ranges) audit range = ground arith

  pub read-IsBuilt :
      (name : Text) (b : AuditTextBuilder) (range : SourceRange)
      → IsBuilt name b
      → validate_range range ≡ ok tt
      → IsBuilt name (read encoded_len b range)
  unfolding read
  read-IsBuilt name b range i v =
      let (archive, version, encoding, format, units, usable) =
        same_but_ranges b.audit.read_ranges b.audit range in
      record {
        chars = i.chars;
        fits = i.fits;
        archive = archive ∙ i.archive;
        version = version ∙ i.version;
        encoding = encoding ∙ i.encoding;
        format = format ∙ i.format;
        listed = read_into-IsListed b.audit.read_ranges b.audit range refl i.listed v;
        units =
            let (us, e, few, checked, numbered) = i.units in
            (us, units ∙ e, few, checked, numbered);
        usable = let (n, e, le) = i.usable in (n, usable ∙ e, le);
      }

length-separator : (content : Text) → length (separator content) ≤ 1
length-separator content = ground arith

grow-IsBuilt :
    (name : Text) (b : AuditTextBuilder) (text : Text) (kind : ContentUnitKind)
    (ranges : List SourceRange)
    → IsBuilt name b
    → length ranges ≤ 128
    → check_each validate_range ranges ≡ ok tt
    → 0 < length text
    → b.chars + length (separator b.content) + length text ≤ b.max_chars
    → length (flatten_option b.audit.content_units) < 512
    → IsBuilt name (grow b text (next_unit b text kind ranges))
unfolding grow next_unit push_unit
grow-IsBuilt name b text kind ranges i few valid some_text room slots =
    let (us, e, count, checked, numbered) = i.units in
    let (n, u, le) = i.usable in
    let unit = next_unit b text kind ranges in
    let flat : flatten_option b.audit.content_units ≡ us = rw e refl in
    let size : length us < 512 = rw (← flat) slots in
    let named : unit.unit_id ≡ unit_name (length us + 1) = rw flat refl in
    record {
      chars = omega (
        arith,
        length-append b.content (separator b.content ++ text),
        length-append (separator b.content) text,
        i.chars,
      );
      fits = room;
      archive = i.archive;
      version = i.version;
      encoding = i.encoding;
      format = i.format;
      listed = i.listed;
      units = (
        us ++ unit ∷ [],
        rw flat refl,
        omega (arith, length-append us (unit ∷ [])),
        validate_units-append b.chars (b.chars + length (separator b.content) + length text) us unit
            [] 0 (omega arith) (omega arith) checked refl
            (subst (λ t. IsFresh t us) (sym named)
              (IsFresh-unit_name 1 (length us + 1) us numbered (omega arith) (omega arith)))
            (record {
              named = (
                omega arith,
                omega (arith, length-show (length (flatten_option b.audit.content_units) + 1)),
              );
              span = (omega arith, omega arith, omega arith);
              few = few;
              ranges = valid;
            }),
        IsNumbered-append 1 (length us + 1) us unit numbered named (omega arith),
      );
      usable = (_, refl, rw u (ground (arith, le)));
    }

truncated-IsBuilt :
    (name : Text) (b : AuditTextBuilder)
    → IsBuilt name b
    → IsBuilt name (record b { truncated = true })
truncated-IsBuilt name b i = record {
  chars = i.chars;
  fits = i.fits;
  archive = i.archive;
  version = i.version;
  encoding = i.encoding;
  format = i.format;
  listed = i.listed;
  units = i.units;
  usable = i.usable;
}

module _ (encoded_len : ParsedContentAudit → ℕ) where
  pub push_trimmed-IsBuilt :
      (name : Text) (b : AuditTextBuilder) (text : Text) (kind : ContentUnitKind)
      (ranges : List SourceRange)
      → IsBuilt name b
      → length ranges ≤ 128
      → check_each validate_range ranges ≡ ok tt
      → IsBuilt name (push_trimmed encoded_len b text kind ranges).1
  unfolding push_trimmed
  push_trimmed-IsBuilt name b [] kind ranges i few valid = i
  push_trimmed-IsBuilt name b (c ∷ text) kind ranges i few valid =
      let needed = b.chars + length (separator b.content) + length (c ∷ text) in
      let count = length (flatten_option b.audit.content_units) in
      let encoded = encoded_len (push_unit b.audit (next_unit b (c ∷ text) kind ranges)) in
      let full = truncated-IsBuilt name b i in
      elim (Bool-cases (ltb b.max_chars needed || leb 512 count)) [
        | inl no_room ↦ rw no_room full
        | inr room ↦ elim (Bool-cases (ltb metadata_budget encoded)) [
          | inl long ↦ rw (room, long) full
          | inr short ↦
              rw (room, short)
                (grow-IsBuilt name b (c ∷ text) kind ranges i few valid (omega arith) (ground arith)
                  (ground arith))
        ]
      ]
