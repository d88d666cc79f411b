-- ===== src/Prelude/Sorting.antt =====
-- The standard library's stable sort, over a comparison, and what the program relies on: the
-- result is ordered, is a rearrangement, and does not depend on the order of the input where no
-- two elements compare equal.
use Prim.Native.Nat.{Ordering}
use mathlib.Core.Path.{ap₂, ◌≡◌, refl, sym, ◌∙◌, subst}
use mathlib.Core.Logic.{◌⊎◌, inl, inr, ◌≢◌}
use mathlib.Core.Bool.{Bool, true, false}
use mathlib.Core.List.{List, [], ◌∷◌, Permᴰ, Pairwise, mem-cons_self}
use mathlib.Core.List.Permᴰ
use mathlib.Core.HLevel.{¬_prop}
use native.Mathlib.Omega.{arith}
use ai_daily_report.Prelude.Tests.{if◌then◌else◌, Bool-cases}
use ai_daily_report.Prelude.Lists.{All}
use ai_daily_report.Prelude.Order.{IsOrder, reverse_cmp}

-- `a <= b` under a comparison.
abbrev pub is_le : Ordering → Bool
is_le Ordering.gt = false
is_le _ = true

module _ {ℓ} {A : Type ℓ} (cmp : A → A → Ordering) where
  -- A new element goes before its equals: the fold below starts at the end of the list.
  unfoldable pub insert_by : A → List A → List A
  insert_by x [] = x ∷ []
  insert_by x (y ∷ ys) = if is_le (cmp x y) then x ∷ y ∷ ys else y ∷ insert_by x ys

  unfoldable pub sort_by : List A → List A
  unfolding insert_by
  sort_by [] = []
  sort_by (x ∷ xs) = insert_by x (sort_by xs)

  insert_by-perm : (x : A) (xs : List A) → Permᴰ (insert_by x xs) (x ∷ xs)
  unfolding insert_by
  insert_by-perm x [] = Permᴰ.refl (x ∷ [])
  insert_by-perm x (y ∷ ys) = elim (Bool-cases (is_le (cmp x y))) [
    | inl le ↦ rw le (Permᴰ.refl (x ∷ y ∷ ys))
    | inr gt ↦ rw gt (Permᴰ.trans (Permᴰ.cons refl (insert_by-perm x ys)) (Permᴰ.swap refl refl))
  ]

  pub sort_by-perm : (xs : List A) → Permᴰ (sort_by xs) xs
  unfolding sort_by
  sort_by-perm [] = Permᴰ.nil
  sort_by-perm (x ∷ xs) =
      Permᴰ.trans (insert_by-perm x (sort_by xs)) (Permᴰ.cons refl (sort_by-perm xs))

-- What the comparison of keys gives to a sort.
module _ {ℓ} {K : Type ℓ} {kcmp : K → K → Ordering} (o : IsOrder kcmp) where
  pub le_antisymm : (a b : K) → is_le (kcmp a b) ≡ true → is_le (kcmp b a) ≡ true → a ≡ b
  le_antisymm a b p q =
      o.eq_of a b (both_le (kcmp a b) p (subst (λ c. is_le c ≡ true) (o.flip a b) q))
    where
      both_le : (c : Ordering) → is_le c ≡ true → is_le (reverse_cmp c) ≡ true → c ≡ Ordering.eq
      both_le c p q = ground arith

  pub le_total : (a b : K) → is_le (kcmp a b) ≡ false → is_le (kcmp b a) ≡ true
  le_total a b h = ground (arith, o.flip a b)

  pub le_trans :
      (a b c : K) → is_le (kcmp a b) ≡ true → is_le (kcmp b c) ≡ true → is_le (kcmp a c) ≡ true
  le_trans a b c p q = elim (le_cases (kcmp a b) p) [
    | inl e ↦ rw (o.eq_of a b e) q
    | inr l ↦ elim (le_cases (kcmp b c) q) [
      | inl e ↦ rw (← o.eq_of b c e) p
      | inr l' ↦ rw (o.trans a b c l l')
    ]
  ]
    where
      le_cases : (c : Ordering) → is_le c ≡ true → (c ≡ Ordering.eq) ⊎ (c ≡ Ordering.lt)
      le_cases c h = ground arith

module _ {ℓ κ} {A : Type ℓ} {K : Type κ} (kcmp : K → K → Ordering) (key : A → K) where
  abbrev pub cmp_key : A → A → Ordering
  cmp_key x y = kcmp (key x) (key y)

  -- `slice::sort_by_key`
  unfoldable pub sort_by_key : List A → List A
  unfolding sort_by
  sort_by_key = sort_by cmp_key

  -- Each element is at most every later one.
  abbrev pub IsSorted : List A → Type ℓ
  IsSorted [] = Unit
  IsSorted (x ∷ xs) = All (λ y. is_le (cmp_key x y) ≡ true) xs × IsSorted xs

  -- No two elements have the same key.
  abbrev pub HasDistinctKeys : List A → Type (ℓ ⊔ κ)
  HasDistinctKeys = Pairwise (λ x y. key x ≢ key y)

  pub sort_by_key-perm : (xs : List A) → Permᴰ (sort_by_key xs) xs
  unfolding sort_by_key
  sort_by_key-perm xs = sort_by-perm cmp_key xs

module _ {ℓ κ} {A : Type ℓ} {K : Type κ} {kcmp : K → K → Ordering} (o : IsOrder kcmp)
    (key : A → K) where
  insert_comm :
      (x y : A) (l : List A)
      → key x ≢ key y
      → insert_by (cmp_key kcmp key) x (insert_by (cmp_key kcmp key) y l)
        ≡ insert_by (cmp_key kcmp key) y (insert_by (cmp_key kcmp key) x l)
  unfolding insert_by
  insert_comm x y [] ne = ground (arith, le_total o (key x) (key y), le_antisymm o (key x) (key y))
  insert_comm x y (z ∷ l) ne = ground (
    arith,
    le_total o (key x) (key y),
    le_antisymm o (key x) (key y),
    le_total o (key x) (key z),
    le_total o (key y) (key z),
    le_trans o (key x) (key z) (key y),
    le_trans o (key y) (key z) (key x),
    insert_comm x y l,
  )

  -- The result of the sort is a function of the elements, not of their order in the input.
  pub sort_by_key-canonical :
      {xs ys : List A}
      → Permᴰ xs ys
      → HasDistinctKeys kcmp key xs
      → sort_by_key kcmp key xs ≡ sort_by_key kcmp key ys
  unfolding sort_by_key
  sort_by_key-canonical Permᴰ.nil d = refl
  sort_by_key-canonical (Permᴰ.cons {a = x} {b = y} e p) (Pairwise.cons h d) =
      ap₂ (insert_by (cmp_key kcmp key)) e (sort_by_key-canonical p d)
  sort_by_key-canonical (Permᴰ.swap {a = x} {b = y} {l = l} e e') (Pairwise.cons h d) =
      rw (← e, ← e') (insert_comm x y (sort_by (cmp_key kcmp key) l) (h y mem-cons_self))
  sort_by_key-canonical (Permᴰ.trans p q) d =
      sort_by_key-canonical p d
      ∙ sort_by_key-canonical q (Permᴰ.pairwise (λ _ _. ¬_prop) (λ _ _ ne e. ne (sym e)) p d)

  insert_by-All :
      (x y : A) (l : List A)
      → is_le (cmp_key kcmp key x y) ≡ true
      → All (λ z. is_le (cmp_key kcmp key x z) ≡ true) l
      → All (λ z. is_le (cmp_key kcmp key x z) ≡ true) (insert_by (cmp_key kcmp key) y l)
  unfolding insert_by
  insert_by-All x y [] h a = (h, tt)
  insert_by-All x y (z ∷ l) h a = ground (arith, insert_by-All x y l h a.1)

  All-le :
      (x y : A) (l : List A)
      → is_le (cmp_key kcmp key x y) ≡ true
      → All (λ z. is_le (cmp_key kcmp key y z) ≡ true) l
      → All (λ z. is_le (cmp_key kcmp key x z) ≡ true) l
  All-le x y [] h a = tt
  All-le x y (z ∷ l) h a = (le_trans o (key x) (key y) (key z) h a.0, All-le x y l h a.1)

  insert_by-IsSorted :
      (x : A) (l : List A)
      → IsSorted kcmp key l
      → IsSorted kcmp key (insert_by (cmp_key kcmp key) x l)
  unfolding insert_by
  insert_by-IsSorted x [] s = (tt, tt)
  insert_by-IsSorted x (y ∷ l) s = elim (Bool-cases (is_le (cmp_key kcmp key x y))) [
    | inl le ↦ rw le ((le, All-le x y l le s.0), s)
    | inr gt ↦
        rw gt (insert_by-All y x l (le_total o (key x) (key y) gt) s.0, insert_by-IsSorted x l s.1)
  ]

  pub sort_by_key-IsSorted : (xs : List A) → IsSorted kcmp key (sort_by_key kcmp key xs)
  unfolding sort_by_key
  sort_by_key-IsSorted [] = tt
  sort_by_key-IsSorted (x ∷ xs) =
      insert_by-IsSorted x (sort_by (cmp_key kcmp key) xs) (sort_by_key-IsSorted xs)
