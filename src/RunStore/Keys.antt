-- ===== src/RunStore/Keys.antt =====
-- The keys of `scan_runs` are distinct and below the next one.
use mathlib.Core.Path.{subst}
use ai_daily_report.Prelude.{
  ℕ, ◌+◌, ◌<◌, ◌≡◌, inl, inr, refl, sym, ap, arith, Bool, true, false, some, List, [], ◌∷◌, ◌++◌,
  map, Text, count_if, ◌==◌, text_eq, All, All-append, Bool-cases, if◌then◌else◌,
}
use ai_daily_report.RunStore.Types.{is_abandoned, is_terminal, RunRow, Tables}
use ai_daily_report.RunStore.Rows.{update, delete}
use ai_daily_report.RunStore.Begin.{query_existing_run, is_abandoned_run}

abbrev pub keys : List RunRow → List ℕ
keys = map (λ r. r.scan_run_id)

-- No key of the list is this one.
abbrev pub IsOther : ℕ → List ℕ → Type 0
IsOther n = All (λ k. (k == n) ≡ false)

abbrev pub Distinct : List ℕ → Type 0
Distinct [] = Unit
Distinct (k ∷ ks) = IsOther k ks × Distinct ks

abbrev pub IsKeyed : Tables → Type 0
IsKeyed t = All (λ k. k < t.next_run_id) (keys t.runs) × Distinct (keys t.runs)

pub keys-update :
    (hit : RunRow → Bool) (set : RunRow → RunRow) (rows : List RunRow)
    → ((r : RunRow) → (set r).scan_run_id ≡ r.scan_run_id)
    → keys (update hit set rows) ≡ keys rows
keys-update hit set [] same = refl
keys-update hit set (r ∷ rows) same = ground (arith, same r, keys-update hit set rows same)

module _ {κ} (P : ℕ → Type κ) (hit : RunRow → Bool) where
  pub keys-delete-All : (rows : List RunRow) → All P (keys rows) → All P (keys (delete hit rows))
  keys-delete-All [] h = tt
  keys-delete-All (r ∷ rows) h = elim (Bool-cases (hit r)) [
    | inl e ↦ rw e (keys-delete-All rows h.1)
    | inr e ↦ rw e (h.0, keys-delete-All rows h.1)
  ]

pub keys-delete-Distinct :
    (hit : RunRow → Bool) (rows : List RunRow)
    → Distinct (keys rows)
    → Distinct (keys (delete hit rows))
keys-delete-Distinct hit [] h = tt
keys-delete-Distinct hit (r ∷ rows) h = elim (Bool-cases (hit r)) [
  | inl e ↦ rw e (keys-delete-Distinct hit rows h.1)
  | inr e ↦ rw e (
    keys-delete-All (λ k. (k == r.scan_run_id) ≡ false) hit rows h.0,
    keys-delete-Distinct hit rows h.1,
  )
]

pub keys-append :
    (rows : List RunRow) (r : RunRow) → keys (rows ++ r ∷ []) ≡ keys rows ++ r.scan_run_id ∷ []
keys-append [] r = refl
keys-append (x ∷ rows) r = ap (◌∷◌ x.scan_run_id) (keys-append rows r)

pub Distinct-append :
    (n : ℕ) (ks : List ℕ) → All (λ k. k < n) ks → Distinct ks → Distinct (ks ++ n ∷ [])
Distinct-append n [] below d = (tt, tt)
Distinct-append n (k ∷ ks) below d = (
  All-append (λ m. (m == k) ≡ false) ks (n ∷ []) d.0 (ground arith, tt),
  Distinct-append n ks below.1 d.1,
)

pub below_suc : (n : ℕ) (ks : List ℕ) → All (λ k. k < n) ks → All (λ k. k < n + 1) (ks ++ n ∷ [])
below_suc n [] h = (omega arith, tt)
below_suc n (k ∷ ks) h = (omega arith, below_suc n ks h.1)

-- A run found by its request has a key of the list.
query-IsOther :
    (rows : List RunRow) (request : Text) (r : RunRow) (n : ℕ)
    → query_existing_run rows request ≡ some r
    → IsOther n (keys rows)
    → (r.scan_run_id == n) ≡ false
unfolding query_existing_run
query-IsOther [] request r n h d = ground arith
query-IsOther (x ∷ rows) request r n h d = ground (arith, query-IsOther rows request r n)

module _ (hit : RunRow → Bool) (set : RunRow → RunRow) where
  abbrev pub row_after : RunRow → RunRow
  row_after x = if hit x then set x else x

  no_key :
      (n : ℕ) (rows : List RunRow)
      → ((x : RunRow) → (set x).scan_run_id ≡ x.scan_run_id)
      → IsOther n (keys rows)
      → count_if (is_abandoned_run n) (update hit set rows) ≡ 0
  no_key n [] same d = refl
  no_key n (x ∷ rows) same d = ground (arith, same x, no_key n rows same)

  no_other :
      (x : RunRow) (rows : List RunRow)
      → ((y : RunRow) → (set y).scan_run_id ≡ y.scan_run_id)
      → IsOther x.scan_run_id (keys rows)
      → is_abandoned (row_after x).status ≡ true
      → count_if (is_abandoned_run x.scan_run_id) (update hit set (x ∷ rows)) ≡ 1
  no_other x rows same d a = ground (arith, a, no_key x.scan_run_id rows same d, same x)

  -- After an update that leaves a found, unfinished run abandoned, one row of its key is.
  pub restartable {κ} :
      (P : RunRow → Type κ) (rows : List RunRow) (request : Text) (r : RunRow)
      → ((x : RunRow) → (set x).scan_run_id ≡ x.scan_run_id)
      → ((x : RunRow)
          → P x
          → is_terminal x.status ≡ false
          → is_abandoned (row_after x).status ≡ true)
      → query_existing_run rows request ≡ some r
      → Distinct (keys rows)
      → All P rows
      → is_terminal r.status ≡ false
      → count_if (is_abandoned_run r.scan_run_id) (update hit set rows) ≡ 1
  unfolding query_existing_run
  restartable P [] request r same f q d p open_run = ground arith
  restartable P (x ∷ rows) request r same f q d p open_run =
      elim (Bool-cases (text_eq x.request_id request)) [
        | inl here ↦
            let e : x ≡ r = ground arith in
            subst (λ z. count_if (is_abandoned_run z.scan_run_id) (update hit set (x ∷ rows)) ≡ 1) e
              (no_other x rows same d.0
                (f x p.0 (subst (λ z. is_terminal z.status ≡ false) (sym e) open_run)))
        | inr there ↦
            let q' : query_existing_run rows request ≡ some r = ground arith in
            let other = query-IsOther rows request r x.scan_run_id q' d.0 in
            ground (arith, other, same x, restartable P rows request r same f q' d.1 p.1 open_run)
      ]
