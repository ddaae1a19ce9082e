-- ===== src/Liepin/Ledger/Operations/Finality.antt =====
-- The end of an attempt: the states that allow no transition.
use cv_match.Liepin.Ledger.Operations.{
  Report, update_detail_attempt, changes_of, reserve_detail_attempt, transition_detail_attempt,
  apply_detail_worker_response, Reservation, reserve_or_replay, apply_or_replay, new_attempt,
  reservation_key,
}
use cv_match.Liepin.Ledger.States.{
  DetailState, is_allowed, completed, blocked_by_risk_control, failed_before_consumption,
  failed_after_possible_consumption, unknown,
}
use cv_match.Liepin.Ledger.Tables.{
  Owner, DetailAttempt, Ledger, insert_attempt, insert_response, fetch_attempt, WorkerResponse,
  update_rows, has_id, has_owned_id, fetch_response, fetch_attempt_by_key,
}
use cv_match.Common.{
  Bool, ◌≡◌, String, true, false, arith, some, find, OnOk, ok, OnOk-then, Bool-cases, OnOk-ok, any,
  ◌||◌, inl, OnOk-err, inr, ◌++◌, ◌∷◌, [], find-append, Option, none,
}
use cv_match.Liepin.Ledger.Operations.Invariant.{IsConsistent, validated-fits, found_or-eq-ok}
use cv_match.Liepin.Ledger.Tables.Updates.{
  clash_id, find-update, clash_key, has_owned_id-IsStable, found_unique,
}
use cv_match.Liepin.Ledger.Operations.History.{
  Step, Reach, reserve, next, transition, Reach-IsConsistent, respond, here,
}

-- `DETAIL_ALLOWED_TRANSITIONS[state]` is the empty set.
abbrev pub is_final : DetailState → Bool
is_final completed = true
is_final blocked_by_risk_control = true
is_final failed_before_consumption = true
is_final failed_after_possible_consumption = true
is_final unknown = true
is_final _ = false

final-closed : (s t : DetailState) → is_final s ≡ true → is_allowed s t ≡ false
unfolding is_allowed
final-closed s t h = ground arith

module _ (o : Owner) (attempt_id : String) (row : DetailAttempt) where
  abbrev IsKept : DetailAttempt × Ledger → Type 0
  IsKept t = fetch_attempt t.1 o attempt_id ≡ some row

  update-IsKept :
      (db : Ledger) (p : DetailAttempt → Bool) (target : DetailAttempt) (r : Report) (now : String)
      → IsConsistent db
      → fetch_attempt db o attempt_id ≡ some row
      → is_final row.state ≡ true
      → find p db.attempts ≡ some target
      → OnOk IsKept (update_detail_attempt db target r now)
  unfolding update_detail_attempt fetch_attempt
  update-IsKept db p target r now c there final found = OnOk-then IsKept _ _ λ _ valid.
      OnOk-then IsKept _ _ λ updated _.
        OnOk-ok IsKept
          (
            updated,
            record db {
              attempts = update_rows (changes_of target r now) target.attempt_id db.attempts;
            },
          )
          (rw
            (
              find-update (changes_of target r now) target.attempt_id _
                  (has_owned_id-IsStable (changes_of target r now) target.attempt_id o attempt_id)
                  db.attempts,
              there,
            )
            (elim (Bool-cases (has_id target.attempt_id row)) [
              | inl same ↦
                  let e : target ≡ row =
                    found_unique p (has_owned_id o attempt_id) db.attempts target row c.ids found
                      there same in
                  let allowed : is_allowed target.state r.state ≡ true =
                    (validated-fits target r valid).0 in
                  let clash : ⊥ = cc (final-closed row.state r.state final, allowed, e) in
                  absurd clash
              | inr other ↦ rw other
            ]))

  insert-kept :
      (db : Ledger) (new : DetailAttempt)
      → fetch_attempt db o attempt_id ≡ some row
      → OnOk (λ db'. fetch_attempt db' o attempt_id ≡ some row) (insert_attempt db new)
  unfolding insert_attempt fetch_attempt
  insert-kept db new there =
      elim (Bool-cases (any (clash_id new) db.attempts || any (clash_key new) db.attempts)) [
        | inl e ↦ rw e (OnOk-err _ _)
        | inr e ↦ rw e (
            OnOk-ok (λ db'. fetch_attempt db' o attempt_id ≡ some row)
              (record db { attempts = db.attempts ++ new ∷ [] })
              (rw (find-append (has_owned_id o attempt_id) db.attempts (new ∷ []), there)))
      ]

  response-kept :
      (db : Ledger) (r : WorkerResponse) (db' : Ledger)
      → insert_response db r ≡ ok db'
      → fetch_attempt db o attempt_id ≡ some row
      → fetch_attempt db' o attempt_id ≡ some row
  unfolding insert_response fetch_attempt
  response-kept db r db' h there = ground arith

  reserve-IsKept :
      (db : Ledger) (r : Reservation) (id now : String)
      → fetch_attempt db o attempt_id ≡ some row
      → OnOk IsKept (reserve_detail_attempt db r id now)
  unfolding reserve_detail_attempt
  reserve-IsKept db r id now there =
      OnOk-then IsKept _ _ λ _ _. branch (fetch_attempt_by_key db (reservation_key r))
    where
      branch : (found : Option DetailAttempt) → OnOk IsKept (reserve_or_replay db r id now found)
      branch (some existing) = OnOk-then IsKept _ _ λ _ _. OnOk-ok IsKept _ there
      branch none = OnOk-then IsKept _ _ λ db' inserted.
          OnOk-then IsKept _ _ λ new _.
            OnOk-ok IsKept _ ((insert-kept db (new_attempt r id now) there).at db' inserted)

  transition-IsKept :
      (db : Ledger) (o' : Owner) (id : String) (r : Report) (now : String)
      → IsConsistent db
      → fetch_attempt db o attempt_id ≡ some row
      → is_final row.state ≡ true
      → OnOk IsKept (transition_detail_attempt db o' id r now)
  unfolding transition_detail_attempt fetch_attempt
  transition-IsKept db o' id r now c there final = OnOk-then IsKept _ _ λ target found.
      update-IsKept db (has_owned_id o' id) target r now c there final (found_or-eq-ok _ _ found)

  apply-IsKept :
      (db : Ledger) (o' : Owner) (id response_id : String) (r : Report) (now : String)
      → IsConsistent db
      → fetch_attempt db o attempt_id ≡ some row
      → is_final row.state ≡ true
      → OnOk IsKept (apply_detail_worker_response db o' id response_id r now)
  unfolding apply_detail_worker_response fetch_attempt
  apply-IsKept db o' id response_id r now c there final =
      OnOk-then IsKept _ _ λ _ _. branch (fetch_response db o' response_id)
    where
      branch :
          (seen : Option WorkerResponse)
          → OnOk IsKept (apply_or_replay db o' id response_id r now seen)
      branch (some duplicate) =
          OnOk-then IsKept _ _ λ _ _. OnOk-then IsKept _ _ λ _ _. OnOk-ok IsKept _ there
      branch none = OnOk-then IsKept _ _ λ target found.
          OnOk-then {A = DetailAttempt × Ledger} IsKept _ _ λ t changed.
            OnOk-then IsKept _ _ λ db'' inserted.
              OnOk-ok IsKept (t.0, db'')
                (response-kept t.1 _ db'' inserted (
                  (update-IsKept db (has_owned_id o' id) target r now c there final
                      (found_or-eq-ok _ _ found)).at
                    t changed))

pub Step-final :
    {db db' : Ledger} (o : Owner) (attempt_id : String) (row : DetailAttempt)
    → IsConsistent db
    → fetch_attempt db o attempt_id ≡ some row
    → is_final row.state ≡ true
    → Step db db'
    → fetch_attempt db' o attempt_id ≡ some row
Step-final {db} o a row c there final (reserve r id now e) =
    (reserve-IsKept o a row db r id now there).at _ e
Step-final {db} o a row c there final (transition o' id r now e) =
    (transition-IsKept o a row db o' id r now c there final).at _ e
Step-final {db} o a row c there final (respond o' id response_id r now e) =
    (apply-IsKept o a row db o' id response_id r now c there final).at _ e

-- An attempt whose state allows no transition (completed, blocked, failed or unknown) is never
-- written again: from a consistent ledger, after any sequence of operations of any owners, a
-- search for it finds the row as it was, in every column.
pub Reach-final :
    {db db' : Ledger} (o : Owner) (attempt_id : String) (row : DetailAttempt)
    → IsConsistent db
    → fetch_attempt db o attempt_id ≡ some row
    → is_final row.state ≡ true
    → Reach db db'
    → fetch_attempt db' o attempt_id ≡ some row
Reach-final o a row c there final here = there
Reach-final o a row c there final (next r s) =
    Step-final o a row (Reach-IsConsistent c r) (Reach-final o a row c there final r) final s
