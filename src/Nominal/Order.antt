-- ===== src/Nominal/Order.antt =====
-- The order of nominal keys is total, and priorities do not see how a path spells its separators.
use ai_daily_report.Prelude.{ℕ, [], ◌∷◌, Text, compare, arith, ◌≡◌, refl, ap, sym}
use ai_daily_report.Prelude.Order.{
  IsOrder, pair_cmp, text_cmp, pair_cmp-IsOrder, compare-IsOrder, text_cmp-IsOrder,
}
use ai_daily_report.Nominal.{
  NominalKey, key_cmp, nominal_key, replace_char, trim_matches, backslash, priority_for,
}

tuple-IsOrder : IsOrder (pair_cmp compare (pair_cmp text_cmp (pair_cmp text_cmp text_cmp)))
tuple-IsOrder =
    pair_cmp-IsOrder compare-IsOrder
      (pair_cmp-IsOrder text_cmp-IsOrder (pair_cmp-IsOrder text_cmp-IsOrder text_cmp-IsOrder))

abbrev tuple : NominalKey → ℕ × (Text × (Text × Text))
tuple k = (k.priority, (k.lower_path, (k.path, k.file_identity)))

-- The derived comparison of nominal keys is a total order whose equality is equality of keys.
pub key_cmp-IsOrder : IsOrder key_cmp
unfolding key_cmp
key_cmp-IsOrder = record {
  self = λ a. tuple-IsOrder.self (tuple a);
  eq_of = λ a b h. of_tuple a b (tuple-IsOrder.eq_of (tuple a) (tuple b) h);
  flip = λ a b. tuple-IsOrder.flip (tuple a) (tuple b);
  trans = λ a b c p q. tuple-IsOrder.trans (tuple a) (tuple b) (tuple c) p q;
}
  where
    of_tuple : (a b : NominalKey) → tuple a ≡ tuple b → a ≡ b
    of_tuple a b e i = record {
      priority = (e i).0;
      lower_path = (e i).1.0;
      path = (e i).1.1.0;
      file_identity = (e i).1.1.1;
    }

replace_char_idem :
    (t : Text)
    → replace_char b'/' backslash (replace_char b'/' backslash t) ≡ replace_char b'/' backslash t
unfolding replace_char
replace_char_idem [] = refl
replace_char_idem (c ∷ t) = ground (arith, replace_char_idem t)

-- A path and the path with every `/` written as `\` have the same priority.
pub priority-separators :
    (to_lowercase : Text → Text) (path extension identity : Text)
    → (nominal_key to_lowercase path extension identity).priority
      ≡ (nominal_key to_lowercase (replace_char b'/' backslash path) extension identity).priority
unfolding nominal_key
priority-separators to_lowercase path extension identity =
    ap (λ p. priority_for (to_lowercase (trim_matches backslash p)) extension)
      (sym (replace_char_idem path))

-- A parse failure, and anything else outside the path, the extension and the identity, cannot move
-- a file: the key is a function of these three, and it determines the path and the identity.
pub nominal_key-injective :
    (to_lowercase : Text → Text) (p q e f i j : Text)
    → nominal_key to_lowercase p e i ≡ nominal_key to_lowercase q f j
    → (p ≡ q) × (i ≡ j)
unfolding nominal_key
nominal_key-injective to_lowercase p q e f i j h = (ap (λ k. k.path) h, ap (λ k. k.file_identity) h)
