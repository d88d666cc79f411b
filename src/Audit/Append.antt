-- ===== src/Audit/Append.antt =====
-- One more unit at the end of a valid list of units.
use ai_daily_report.Prelude.{
  ℕ, suc, ◌+◌, ◌≤◌, ◌<◌, ◌≡◌, inl, inr, ap, ◌∙◌, false, List, [], ◌∷◌, ◌++◌, Text, codes, length,
  contains, text_eq, text_eq-≡, show, value_of, value_of-show, arith, All, ok, Bool-cases,
}
use ai_daily_report.Contract.Checks.{Check, check_each}
use ai_daily_report.Audit.Types.{ContentUnit}
use ai_daily_report.Audit.Validate.{validate_range, validate_units}

pub check_each-append {ℓ} :
    {A : Type ℓ} (check : A → Check) (xs : List A) (x : A)
    → check_each check xs ≡ ok tt
    → check x ≡ ok tt
    → check_each check (xs ++ x ∷ []) ≡ ok tt
check_each-append check [] x h k = ground (arith, k)
check_each-append check (y ∷ ys) x h k = ground (arith, check_each-append check ys x)

-- A unit that may follow units that end at `from` in a text of `chars` characters.
pub record IsNext (from chars : ℕ) (u : ContentUnit) : Type 0 where
  pub named : (0 < length u.unit_id) × (length u.unit_id ≤ 128)
  pub span : (from ≤ u.text_start) × (u.text_start < u.text_end) × (u.text_end ≤ chars)
  pub few : length u.ranges ≤ 128
  pub ranges : check_each validate_range u.ranges ≡ ok tt

-- No unit of the list has this identity.
abbrev pub IsFresh : Text → List ContentUnit → Type 0
IsFresh id = All (λ v. text_eq id v.unit_id ≡ false)

pub validate_units-append :
    (c₀ c : ℕ) (us : List ContentUnit) (u : ContentUnit) (seen : List Text) (from : ℕ)
    → c₀ ≤ c
    → from ≤ c₀
    → validate_units c₀ seen from us ≡ ok tt
    → contains seen u.unit_id ≡ false
    → IsFresh u.unit_id us
    → IsNext c₀ c u
    → validate_units c seen from (us ++ u ∷ []) ≡ ok tt
unfolding validate_units
validate_units-append c₀ c [] u seen from le fr h new f n =
    ground (arith, n.named, n.span, n.few, n.ranges)
validate_units-append c₀ c (v ∷ us) u seen from le fr h new f n =
    ground (arith, validate_units-append c₀ c us u (v.unit_id ∷ seen) v.text_end)

-- The identity of the n-th unit.
abbrev pub unit_name : ℕ → Text
unit_name n = codes "u" ++ show n

text_eq-show : (m n : ℕ) → m < n → n < 1000 → text_eq (unit_name n) (unit_name m) ≡ false
text_eq-show m n lt le = elim (Bool-cases (text_eq (show n) (show m))) [
  | inl e ↦
      let same = ap (λ t. value_of t 0) (text_eq-≡ (show n) (show m) e) in
      absurd (omega (arith, value_of-show m (omega arith), value_of-show n (omega arith), same))
  | inr ne ↦ ground arith
]

-- The units are named `u1`, `u2` and so on, the first one by its position.
abbrev pub IsNumbered : ℕ → List ContentUnit → Type 0
IsNumbered k [] = Unit
IsNumbered k (u ∷ us) = (u.unit_id ≡ unit_name k) × IsNumbered (suc k) us

pub IsNumbered-append :
    (k n : ℕ) (us : List ContentUnit) (u : ContentUnit)
    → IsNumbered k us
    → u.unit_id ≡ unit_name n
    → n ≡ k + length us
    → IsNumbered k (us ++ u ∷ [])
IsNumbered-append k n [] u h e q = let last : n ≡ k = omega arith in (e ∙ ap unit_name last, tt)
IsNumbered-append k n (v ∷ us) u h e q = (h.0, IsNumbered-append (suc k) n us u h.1 e (omega arith))

pub IsFresh-unit_name :
    (k n : ℕ) (us : List ContentUnit)
    → IsNumbered k us
    → k + length us ≤ n
    → n < 1000
    → IsFresh (unit_name n) us
IsFresh-unit_name k n [] h le lt = tt
IsFresh-unit_name k n (v ∷ us) h le lt = (
  rw h.0 (text_eq-show k n (omega arith) lt),
  IsFresh-unit_name (suc k) n us h.1 (omega arith) lt,
)
