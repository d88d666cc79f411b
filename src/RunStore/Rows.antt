-- ===== src/RunStore/Rows.antt =====
-- `UPDATE … WHERE` and `DELETE … WHERE` on the rows of a table, with the counts that they report.
use ai_daily_report.Prelude.{
  ◌+◌, ◌≡◌, inl, inr, refl, arith, Bool, true, false, List, [], ◌∷◌, ◌++◌, All, count_if,
  if◌then◌else◌, Bool-cases,
}

module _ {ℓ} {A : Type ℓ} (where_test : A → Bool) where
  -- `UPDATE … SET … WHERE …`
  abbrev pub update : (A → A) → List A → List A
  update set [] = []
  update set (r ∷ rows) = (if where_test r then set r else r) ∷ update set rows

  -- `DELETE … WHERE …`
  abbrev pub delete : List A → List A
  delete [] = []
  delete (r ∷ rows) = let rest = delete rows in if where_test r then rest else r ∷ rest

-- How many rows pass a test, across an update that clears it, and across one that sets it.
module _ {ℓ} {A : Type ℓ} (live hit : A → Bool) (set : A → A) where
  pub count-clear :
      ((r : A) → hit r ≡ true → live r ≡ true)
      → ((r : A) → live (set r) ≡ false)
      → (rows : List A)
      → count_if live (update hit set rows) + count_if hit rows ≡ count_if live rows
  count-clear within clears [] = refl
  count-clear within clears (r ∷ rows) =
      ground (arith, within r, clears r, count-clear within clears rows)

  pub count-set :
      ((r : A) → hit r ≡ true → live r ≡ false)
      → ((r : A) → live (set r) ≡ true)
      → (rows : List A)
      → count_if live (update hit set rows) ≡ count_if live rows + count_if hit rows
  count-set apart sets [] = refl
  count-set apart sets (r ∷ rows) = ground (arith, apart r, sets r, count-set apart sets rows)

  -- An update that keeps the test.
  pub count-keep :
      ((r : A) → live (set r) ≡ live r)
      → (rows : List A) → count_if live (update hit set rows) ≡ count_if live rows
  count-keep keeps [] = refl
  count-keep keeps (r ∷ rows) = ground (arith, keeps r, count-keep keeps rows)

module _ {ℓ} {A : Type ℓ} (live : A → Bool) where
  pub none_live : (rows : List A) → count_if live rows ≡ 0 → All (λ r. live r ≡ false) rows
  none_live [] h = tt
  none_live (r ∷ rows) h = ground (arith, none_live rows)

  pub count-none : (rows : List A) → All (λ r. live r ≡ false) rows → count_if live rows ≡ 0
  count-none [] h = refl
  count-none (r ∷ rows) h = ground (arith, count-none rows)

  pub count-append :
      (xs ys : List A) → count_if live (xs ++ ys) ≡ count_if live xs + count_if live ys
  count-append [] ys = omega arith
  count-append (x ∷ xs) ys = ground (arith, count-append xs ys)

-- What holds of all rows, across an update and a deletion.
module _ {ℓ κ} {A : Type ℓ} (P : A → Type κ) (hit : A → Bool) where
  pub update-All :
      (set : A → A) (rows : List A)
      → ((r : A) → hit r ≡ true → P r → P (set r))
      → All P rows
      → All P (update hit set rows)
  update-All set [] keeps h = tt
  update-All set (r ∷ rows) keeps h = elim (Bool-cases (hit r)) [
    | inl e ↦ rw e (keeps r e h.0, update-All set rows keeps h.1)
    | inr e ↦ rw e (h.0, update-All set rows keeps h.1)
  ]

  pub delete-All : (rows : List A) → All P rows → All P (delete hit rows)
  delete-All [] h = tt
  delete-All (r ∷ rows) h = elim (Bool-cases (hit r)) [
    | inl e ↦ rw e (delete-All rows h.1)
    | inr e ↦ rw e (h.0, delete-All rows h.1)
  ]

-- An update that hits every live row and clears it leaves none.
pub update-quiet {ℓ κ} :
    {A : Type ℓ} (P : A → Type κ) (live hit : A → Bool) (set : A → A) (rows : List A)
    → ((r : A) → P r → live r ≡ true → hit r ≡ true)
    → ((r : A) → live (set r) ≡ false)
    → All P rows
    → All (λ r. live r ≡ false) (update hit set rows)
update-quiet P live hit set [] hits clears h = tt
update-quiet P live hit set (r ∷ rows) hits clears h =
    (ground (arith, hits r h.0, clears r), update-quiet P live hit set rows hits clears h.1)

-- From one predicate to another, row by row.
pub update-into {ℓ κ μ} :
    {A : Type ℓ} (P : A → Type κ) (Q : A → Type μ) (hit : A → Bool) (set : A → A) (rows : List A)
    → ((r : A) → P r → hit r ≡ true → Q (set r))
    → ((r : A) → P r → Q r)
    → All P rows
    → All Q (update hit set rows)
update-into P Q hit set [] sets keeps h = tt
update-into P Q hit set (r ∷ rows) sets keeps h = elim (Bool-cases (hit r)) [
  | inl e ↦ rw e (sets r h.0 e, update-into P Q hit set rows sets keeps h.1)
  | inr e ↦ rw e (keeps r h.0, update-into P Q hit set rows sets keeps h.1)
]

pub All-map {ℓ κ μ} :
    {A : Type ℓ} (P : A → Type κ) (Q : A → Type μ) (rows : List A)
    → ((r : A) → P r → Q r)
    → All P rows
    → All Q rows
All-map P Q [] f h = tt
All-map P Q (r ∷ rows) f h = (f r h.0, All-map P Q rows f h.1)
