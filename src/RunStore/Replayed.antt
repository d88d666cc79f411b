-- ===== src/RunStore/Replayed.antt =====
-- What a finished run answers when its request comes again, and that a final row stays as it is.
use mathlib.Core.Path.{subst}
use ai_daily_report.Prelude.{
  ◌≡◌, inl, inr, sym, arith, Bool, false, some, List, [], ◌∷◌, Text, text_eq, Bool-cases,
}
use ai_daily_report.RunStore.Types.{RunRow}
use ai_daily_report.RunStore.Rows.{update, delete}
use ai_daily_report.RunStore.Begin.{query_existing_run}
use ai_daily_report.RunStore.Keys.{row_after}

-- A query after an update and after a deletion.
pub query-update :
    (hit : RunRow → Bool) (set : RunRow → RunRow) (rows : List RunRow) (request : Text) (r : RunRow)
    → ((x : RunRow) → (set x).request_id ≡ x.request_id)
    → query_existing_run rows request ≡ some r
    → query_existing_run (update hit set rows) request ≡ some (row_after hit set r)
unfolding query_existing_run
query-update hit set [] request r same h = ground arith
query-update hit set (x ∷ rows) request r same h =
    elim (Bool-cases (text_eq x.request_id request)) [
      | inl here ↦
          let e : x ≡ r = ground arith in
          subst
            (λ z.
              query_existing_run (update hit set (x ∷ rows)) request ≡ some (row_after hit set z))
            e (ground (arith, same x))
      | inr there ↦ ground (arith, same x, query-update hit set rows request r same (ground arith))
    ]

pub query-delete :
    (hit : RunRow → Bool) (rows : List RunRow) (request : Text) (r : RunRow)
    → query_existing_run rows request ≡ some r
    → hit r ≡ false
    → query_existing_run (delete hit rows) request ≡ some r
unfolding query_existing_run
query-delete hit [] request r h k = ground arith
query-delete hit (x ∷ rows) request r h k = elim (Bool-cases (text_eq x.request_id request)) [
  | inl here ↦
      let e : x ≡ r = ground arith in
      let kept : hit x ≡ false = subst (λ z. hit z ≡ false) (sym e) k in ground arith
  | inr there ↦ ground (arith, query-delete hit rows request r (ground arith) k)
]
