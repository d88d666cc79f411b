-- ===== src/Prelude/Order.antt =====
-- Lexicographic orders: the `Ord` of texts, of numbers and of tuples, with its laws.
use Prim.Native.Nat.{compare, Ordering}
use mathlib.Core.Path.{◌≡◌, refl, ap₂}
use mathlib.Core.Logic.{◌⊎◌, inl, inr}
use mathlib.Core.List.{[], ◌∷◌}
use native.Mathlib.Omega.{arith}
use ai_daily_report.Prelude.Lists.{Text}

-- `Ordering::then`
abbrev pub then_cmp : Ordering → Ordering → Ordering
then_cmp Ordering.lt o = Ordering.lt
then_cmp Ordering.eq o = o
then_cmp Ordering.gt o = Ordering.gt

abbrev pub reverse_cmp : Ordering → Ordering
reverse_cmp Ordering.lt = Ordering.gt
reverse_cmp Ordering.eq = Ordering.eq
reverse_cmp Ordering.gt = Ordering.lt

-- The laws of a total order given by its comparison.
pub record IsOrder {ℓ} {A : Type ℓ} (cmp : A → A → Ordering) : Type ℓ where
  pub self : (a : A) → cmp a a ≡ Ordering.eq
  pub eq_of : (a b : A) → cmp a b ≡ Ordering.eq → a ≡ b
  pub flip : (a b : A) → cmp b a ≡ reverse_cmp (cmp a b)
  pub trans : (a b c : A) → cmp a b ≡ Ordering.lt → cmp b c ≡ Ordering.lt → cmp a c ≡ Ordering.lt

pub compare-IsOrder : IsOrder compare
compare-IsOrder = record {
  self = λ a. ground arith;
  eq_of = λ a b h. ground arith;
  flip = λ a b. ground arith;
  trans = λ a b c p q. ground arith;
}

-- The order of pairs, first component first.
abbrev pub pair_cmp {ℓ κ} :
    {A : Type ℓ} {B : Type κ} (c : A → A → Ordering) (d : B → B → Ordering)
    → A × B
    → A × B
    → Ordering
pair_cmp c d p q = then_cmp (c p.0 q.0) (d p.1 q.1)

then_cmp_eq : (o p : Ordering) → then_cmp o p ≡ Ordering.eq → (o ≡ Ordering.eq) × (p ≡ Ordering.eq)
then_cmp_eq o p h = ground arith

then_cmp_lt :
    (o p : Ordering)
    → then_cmp o p ≡ Ordering.lt
    → (o ≡ Ordering.lt) ⊎ ((o ≡ Ordering.eq) × (p ≡ Ordering.lt))
then_cmp_lt o p h = ground arith

-- `then` of two comparisons is transitive where both are.
pub then_cmp_trans {ℓ κ} :
    {A : Type ℓ} {B : Type κ} {c : A → A → Ordering} {d : B → B → Ordering}
    → IsOrder c
    → IsOrder d
    → (a₁ a₂ a₃ : A) (b₁ b₂ b₃ : B) → then_cmp (c a₁ a₂) (d b₁ b₂) ≡ Ordering.lt
    → then_cmp (c a₂ a₃) (d b₂ b₃) ≡ Ordering.lt
    → then_cmp (c a₁ a₃) (d b₁ b₃) ≡ Ordering.lt
then_cmp_trans {c} {d} oc od a₁ a₂ a₃ b₁ b₂ b₃ p q = elim (then_cmp_lt (c a₁ a₂) (d b₁ b₂) p) [
  | inl p' ↦ elim (then_cmp_lt (c a₂ a₃) (d b₂ b₃) q) [
    | inl q' ↦ rw (oc.trans a₁ a₂ a₃ p' q')
    | inr (e, _) ↦ rw (← oc.eq_of a₂ a₃ e, p')
  ]
  | inr (e, p') ↦ elim (then_cmp_lt (c a₂ a₃) (d b₂ b₃) q) [
    | inl q' ↦ rw (oc.eq_of a₁ a₂ e, q')
    | inr (e', q') ↦ rw (oc.eq_of a₁ a₂ e, e') (od.trans b₁ b₂ b₃ p' q')
  ]
]

pub pair_cmp-IsOrder {ℓ κ} :
    {A : Type ℓ} {B : Type κ} {c : A → A → Ordering} {d : B → B → Ordering}
    → IsOrder c
    → IsOrder d
    → IsOrder (pair_cmp c d)
pair_cmp-IsOrder {c} {d} oc od = record {
  self = λ a. rw (oc.self a.0) (od.self a.1);
  eq_of = λ a b h.
      let e = then_cmp_eq (c a.0 b.0) (d a.1 b.1) h in
      λ i. (oc.eq_of a.0 b.0 e.0 i, od.eq_of a.1 b.1 e.1 i);
  flip = λ a b. ground (arith, oc.flip a.0 b.0, od.flip a.1 b.1);
  trans = λ x y z p q. then_cmp_trans oc od x.0 y.0 z.0 x.1 y.1 z.1 p q;
}

-- The order of texts: character by character, a prefix first. The bytes of UTF-8 order the same.
unfoldable pub text_cmp : Text → Text → Ordering
text_cmp [] [] = Ordering.eq
text_cmp [] (y ∷ ys) = Ordering.lt
text_cmp (x ∷ xs) [] = Ordering.gt
text_cmp (x ∷ xs) (y ∷ ys) = then_cmp (compare x y) (text_cmp xs ys)

text_cmp_self : (a : Text) → text_cmp a a ≡ Ordering.eq
unfolding text_cmp
text_cmp_self [] = refl
text_cmp_self (x ∷ xs) = rw (compare-IsOrder.self x) (text_cmp_self xs)

text_cmp_eq_of : (a b : Text) → text_cmp a b ≡ Ordering.eq → a ≡ b
unfolding text_cmp
text_cmp_eq_of [] [] h = refl
text_cmp_eq_of [] (y ∷ ys) h = cc
text_cmp_eq_of (x ∷ xs) [] h = cc
text_cmp_eq_of (x ∷ xs) (y ∷ ys) h =
    let e = then_cmp_eq (compare x y) (text_cmp xs ys) h in
    ap₂ ◌∷◌ (compare-IsOrder.eq_of x y e.0) (text_cmp_eq_of xs ys e.1)

text_cmp_flip : (a b : Text) → text_cmp b a ≡ reverse_cmp (text_cmp a b)
unfolding text_cmp
text_cmp_flip [] [] = refl
text_cmp_flip [] (y ∷ ys) = refl
text_cmp_flip (x ∷ xs) [] = refl
text_cmp_flip (x ∷ xs) (y ∷ ys) = ground (arith, text_cmp_flip xs ys)

text_cmp_trans :
    (a b c : Text)
    → text_cmp a b ≡ Ordering.lt
    → text_cmp b c ≡ Ordering.lt
    → text_cmp a c ≡ Ordering.lt
unfolding text_cmp
text_cmp_trans [] b [] p q =
    elim b
        as (λ b.
          text_cmp [] b ≡ Ordering.lt → text_cmp b [] ≡ Ordering.lt → Ordering.eq ≡ Ordering.lt) [
            | [] ↦ λ p q. p
            | y ∷ ys ↦ λ p q. cc
          ]
      p q
text_cmp_trans [] b (z ∷ zs) p q = refl
text_cmp_trans (x ∷ xs) [] c p q = cc
text_cmp_trans (x ∷ xs) (y ∷ ys) [] p q = cc
text_cmp_trans (x ∷ xs) (y ∷ ys) (z ∷ zs) p q = ground (arith, text_cmp_trans xs ys zs)

pub text_cmp-IsOrder : IsOrder text_cmp
text_cmp-IsOrder = record {
  self = text_cmp_self;
  eq_of = text_cmp_eq_of;
  flip = text_cmp_flip;
  trans = text_cmp_trans;
}
