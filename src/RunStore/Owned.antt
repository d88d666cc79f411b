-- ===== src/RunStore/Owned.antt =====
-- Who owns the store: one run, and no handle of an earlier owner.
use ai_daily_report.Prelude.{
  ℕ, ◌≡◌, inl, inr, sym, ◌∙◌, arith, true, Option, none, some, List, [], ◌∷◌, Text, any, text_eq-≡,
  All, ok, Option-cases,
}
use ai_daily_report.RunStore.Types.{RunRow, LeaseRow, ActiveRun, Tables}
use ai_daily_report.RunStore.Lease.{is_active_run, ensure_owner, holds}
use ai_daily_report.RunStore.Consistent.{RunBy, IsHeld}
use ai_daily_report.RunStore.Kept.{IsConsistent-at}
use ai_daily_report.RunStore.Steps.{Reach, Reach-IsConsistent}

owner_run :
    (a : ActiveRun) (owner : Text) (id : ℕ) (rows : List RunRow)
    → All (RunBy owner id) rows
    → any (is_active_run a) rows ≡ true
    → a.scan_run_id ≡ id
owner_run a owner id [] h e = ground arith
owner_run a owner id (r ∷ rows) h e = ground (arith, owner_run a owner id rows)

-- A handle that owns the store names the lease's owner and the run that runs.
names_lease :
    (t : Tables) (a : ActiveRun) (o : Option LeaseRow)
    → ensure_owner t a ≡ ok tt
    → t.lease ≡ o
    → holds o a.owner_id ≡ true
unfolding ensure_owner
names_lease t a o h e = rw (← e) (ground arith)

names_run :
    (t : Tables) (a : ActiveRun) (owner : Text) (id : ℕ)
    → ensure_owner t a ≡ ok tt
    → IsHeld owner id t
    → a.scan_run_id ≡ id
unfolding ensure_owner
names_run t a owner id h held = owner_run a owner id t.runs held.run (ground arith)

-- In every state that is reached, two handles that pass the check of ownership are handles of one
-- run and of one owner.
pub ensure_owner_unique :
    (domain_hash : Text → Text) (t : Tables) (a b : ActiveRun)
    → Reach domain_hash t
    → ensure_owner t a ≡ ok tt
    → ensure_owner t b ≡ ok tt
    → (a.scan_run_id ≡ b.scan_run_id) × (a.owner_id ≡ b.owner_id)
ensure_owner_unique domain_hash t a b r ha hb = elim (Option-cases t.lease) [
  | inl e ↦ absurd (ground (arith, names_lease t a none ha e))
  | inr (l, e) ↦
      let (id, held) = IsConsistent-at t (some l) e (Reach-IsConsistent domain_hash r) in
      let mine = text_eq-≡ l.owner_id a.owner_id (names_lease t a (some l) ha e) in
      let yours = text_eq-≡ l.owner_id b.owner_id (names_lease t b (some l) hb e) in
      (
        names_run t a l.owner_id id ha held ∙ sym (names_run t b l.owner_id id hb held),
        sym mine ∙ yours,
      )
]
