-- ===== src/Prelude/Decimal.antt =====
-- `u64::to_string`: the decimal digits of a number, and how many there are.
use Prim.Native.Nat.{ℕ, zero, suc, ◌+◌, ◌-◌, ◌*◌, ◌/◌, ◌%◌, ◌^◌, ◌≤◌, ◌<◌}
use mathlib.Core.Path.{◌≡◌, refl}
use mathlib.Core.List.{[], ◌∷◌, ◌++◌}
use native.Mathlib.Nat.{pow-suc}
use native.Mathlib.Omega.{arith}
use ai_daily_report.Prelude.Tests.{ltb, if◌then◌else◌}
use ai_daily_report.Prelude.Lists.{Text, length, length-append}

-- The fuel bounds the digits.
unfoldable pub digits_of : ℕ → ℕ → Text
digits_of zero n = []
digits_of (suc f) n =
    let rest = digits_of f (n / 10) in
    if ltb n 10 then (b'0' + n) ∷ [] else rest ++ (b'0' + n % 10) ∷ []

-- Twenty digits hold every `u64`.
unfoldable pub show : ℕ → Text
unfolding digits_of
show n = digits_of 20 n

pub length-digits_of : (f n : ℕ) → length (digits_of f n) ≤ f
unfolding digits_of
length-digits_of zero n = omega arith
length-digits_of (suc f) n = ground (
  arith,
  length-digits_of f (n / 10),
  length-append (digits_of f (n / 10)) ((b'0' + n % 10) ∷ []),
)

pub length-show : (n : ℕ) → length (show n) ≤ 20
unfolding show
length-show n = length-digits_of 20 n

-- The number that a text of digits stands for.
unfoldable pub value_of : Text → ℕ → ℕ
value_of [] acc = acc
value_of (c ∷ t) acc = value_of t (acc * 10 + (c - b'0'))

value_of-append : (s t : Text) (acc : ℕ) → value_of (s ++ t) acc ≡ value_of t (value_of s acc)
unfolding value_of
value_of-append [] t acc = refl
value_of-append (c ∷ s) t acc = value_of-append s t (acc * 10 + (c - b'0'))

value_of-digits_of : (f n : ℕ) → n < 10 ^ f → value_of (digits_of f n) 0 ≡ n
unfolding digits_of value_of
value_of-digits_of zero n h = omega arith
value_of-digits_of (suc f) n h = ground (
  arith,
  pow-suc 10 f,
  value_of-digits_of f (n / 10),
  value_of-append (digits_of f (n / 10)) ((b'0' + n % 10) ∷ []) 0,
)

-- The digits of a `u64` read back to it.
pub value_of-show : (n : ℕ) → n < 10 ^ 20 → value_of (show n) 0 ≡ n
unfolding show
value_of-show n h = value_of-digits_of 20 n h
