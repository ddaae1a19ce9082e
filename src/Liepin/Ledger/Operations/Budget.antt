-- ===== src/Liepin/Ledger/Operations/Budget.antt =====
-- The daily budget of detail views that `count_detail_budget_consumed` reports.
use cv_match.Common.{
  ℕ, ◌+◌, ◌≤◌, String, ◌≡◌, ◌∙◌, subst, find-All, Bool, true, false, ◌||◌, Option, none, some, List,
  [], ◌∷◌, ok, OnOk, OnOk-ok, OnOk-err, OnOk-then, arith, find, any, select, length, Distinct,
  any-find, length-select-append, Bool-cases, inl, inr,
}
use cv_match.Liepin.Ledger.States.{
  DetailState, Consumption, is_valid_pair, is_allowed, counts_for_budget,
}
use cv_match.Liepin.Ledger.Tables.{
  Owner, DetailAttempt, WorkerResponse, Ledger, BudgetKey, Changes, has_id, has_owned_id,
  fetch_response, fetch_attempt, fetch_attempt_by_key, insert_attempt, insert_response, update_rows,
  spends, count_detail_budget_consumed,
}
use cv_match.Liepin.Ledger.Tables.Updates.{clash_id, clash_key, clash_id_comm, update_rows_absent}
use cv_match.Liepin.Ledger.Operations.{
  reservation_key, Reservation, Report, new_attempt, changes_of, reserve_or_replay,
  reserve_detail_attempt, update_detail_attempt, transition_detail_attempt, apply_or_replay,
  apply_detail_worker_response,
}
use cv_match.Liepin.Ledger.Operations.Invariant.{
  IsConsistent, FitsState, validated-fits, found_or-eq-ok,
}
use cv_match.Liepin.Ledger.Operations.History.{
  Step, reserve, transition, respond, Reach, here, next, Reach-IsConsistent,
}

-- A row that may still move has consumed nothing.
open_row :
    (s t : DetailState) (c : Consumption)
    → is_allowed s t ≡ true
    → is_valid_pair s c ≡ true
    → counts_for_budget c ≡ false
unfolding is_allowed is_valid_pair counts_for_budget
open_row s t c h k = ground arith

module _ (key : BudgetKey) where
  abbrev spent : List DetailAttempt → ℕ
  spent rows = length (select (spends key) rows)

  abbrev OneMore : Changes → List DetailAttempt → DetailAttempt → Type 0
  OneMore c rows row =
      (spent rows ≤ spent (update_rows c row.attempt_id rows))
      × (spent (update_rows c row.attempt_id rows) ≤ spent rows + 1)

  spent-update_head :
      (c : Changes) (x : DetailAttempt) (rows : List DetailAttempt)
      → any (clash_id x) rows ≡ false
      → spends key x ≡ false
      → OneMore c (x ∷ rows) x
  unfolding update_rows
  spent-update_head c x rows d idle = rw (update_rows_absent c x.attempt_id rows d) (ground arith)

  spent-update :
      (c : Changes) (p : DetailAttempt → Bool) (rows : List DetailAttempt) (row : DetailAttempt)
      → Distinct clash_id rows
      → find p rows ≡ some row
      → spends key row ≡ false
      → OneMore c rows row
  unfolding update_rows
  spent-update c p [] row d found idle = ground arith
  spent-update c p (x ∷ rows) row d found idle = elim (Bool-cases (p x)) [
    | inl h ↦
        let e : x ≡ row = ground arith in
        subst (OneMore c (x ∷ rows)) e (spent-update_head c x rows d.0 (rw (← e) at idle))
    | inr h ↦
        let deep : find p rows ≡ some row = ground arith in
        let apart : has_id row.attempt_id x ≡ false =
          clash_id_comm row x ∙ any-find p (clash_id x) rows row deep d.0 in
        rw apart (ground (arith, spent-update c p rows row d.1 deep idle))
  ]

  -- The change of the count that one operation can make.
  abbrev Grows : Ledger → DetailAttempt × Ledger → Type 0
  Grows db t =
      (count_detail_budget_consumed db key ≤ count_detail_budget_consumed t.1 key)
      × (count_detail_budget_consumed t.1 key ≤ count_detail_budget_consumed db key + 1)

  stays : (db : Ledger) (row : DetailAttempt) → Grows db (row, db)
  stays db row = omega arith

  spends-open :
      (row : DetailAttempt) (t : DetailState)
      → is_allowed row.state t ≡ true
      → FitsState row
      → spends key row ≡ false
  unfolding spends
  spends-open row t h fits = ground (arith, open_row row.state t row.consumption_state h fits)

  update-Grows :
      (db : Ledger) (p : DetailAttempt → Bool) (row : DetailAttempt) (r : Report) (now : String)
      → IsConsistent db
      → find p db.attempts ≡ some row
      → OnOk (Grows db) (update_detail_attempt db row r now)
  unfolding update_detail_attempt count_detail_budget_consumed
  update-Grows db p row r now c found = OnOk-then (Grows db) _ _ λ _ valid.
      OnOk-then (Grows db) _ _ λ updated _. OnOk-ok (Grows db) _ (
        spent-update (changes_of row r now) p db.attempts row c.ids found (
          spends-open row r.state (validated-fits row r valid).0
            (find-All FitsState p db.attempts c.fitting found)))

  new-idle :
      (r : Reservation) (attempt_id now : String)
      → spends key (new_attempt r attempt_id now) ≡ false
  unfolding spends new_attempt
  new-idle r attempt_id now = ground arith

  response-count :
      (db : Ledger) (r : WorkerResponse) (db' : Ledger)
      → insert_response db r ≡ ok db'
      → count_detail_budget_consumed db' key ≡ count_detail_budget_consumed db key
  unfolding insert_response count_detail_budget_consumed
  response-count db r db' h = ground arith

  transition-Grows :
      (db : Ledger) (o : Owner) (attempt_id : String) (r : Report) (now : String)
      → IsConsistent db
      → OnOk (Grows db) (transition_detail_attempt db o attempt_id r now)
  unfolding transition_detail_attempt fetch_attempt
  transition-Grows db o attempt_id r now c = OnOk-then (Grows db) _ _ λ row found.
      update-Grows db (has_owned_id o attempt_id) row r now c (found_or-eq-ok _ _ found)

  insert-same :
      (db : Ledger) (row : DetailAttempt)
      → spends key row ≡ false
      → OnOk
          (λ db'. count_detail_budget_consumed db' key ≡ count_detail_budget_consumed db key)
          (insert_attempt db row)
  unfolding insert_attempt count_detail_budget_consumed
  insert-same db row idle =
      elim (Bool-cases (any (clash_id row) db.attempts || any (clash_key row) db.attempts)) [
        | inl e ↦ rw e (OnOk-err _ _)
        | inr e ↦ rw e (
            OnOk-ok (λ db'. count_detail_budget_consumed db' key ≡ spent db.attempts) _
              (ground (arith, length-select-append (spends key) db.attempts (row ∷ []))))
      ]

  reserve-Grows :
      (db : Ledger) (r : Reservation) (attempt_id now : String)
      → OnOk (Grows db) (reserve_detail_attempt db r attempt_id now)
  unfolding reserve_detail_attempt
  reserve-Grows db r attempt_id now =
      OnOk-then (Grows db) _ _ λ _ _. branch (fetch_attempt_by_key db (reservation_key r))
    where
      branch :
          (o : Option DetailAttempt) → OnOk (Grows db) (reserve_or_replay db r attempt_id now o)
      branch (some row) = OnOk-then (Grows db) _ _ λ _ _. OnOk-ok (Grows db) _ (stays db row)
      branch none = OnOk-then (Grows db) _ _ λ db' inserted. OnOk-then (Grows db) _ _ λ row _.
          OnOk-ok (Grows db) _ (
            omega (
              arith,
              (insert-same db (new_attempt r attempt_id now) (new-idle r attempt_id now)).at db'
                  inserted,
            ))

  respond-Grows :
      (db : Ledger) (o : Owner) (attempt_id response_id : String) (r : Report) (now : String)
      → IsConsistent db
      → OnOk (Grows db) (apply_detail_worker_response db o attempt_id response_id r now)
  unfolding apply_detail_worker_response fetch_attempt
  respond-Grows db o attempt_id response_id r now c =
      OnOk-then (Grows db) _ _ λ _ _. branch (fetch_response db o response_id)
    where
      branch :
          (seen : Option WorkerResponse)
          → OnOk (Grows db) (apply_or_replay db o attempt_id response_id r now seen)
      branch (some duplicate) =
          OnOk-then (Grows db) _ _
            λ _ _. OnOk-then (Grows db) _ _ λ row _. OnOk-ok (Grows db) _ (stays db row)
      branch none = OnOk-then (Grows db) _ _ λ row found.
          OnOk-then {A = DetailAttempt × Ledger} (Grows db) _ _ λ t changed.
            OnOk-then (Grows db) _ _ λ db'' inserted.
              OnOk-ok (Grows db) (t.0, db'')
                (omega (
                  arith,
                  response-count t.1 _ db'' inserted,
                  (update-Grows db (has_owned_id o attempt_id) row r now c
                        (found_or-eq-ok _ _ found)).at
                      t changed,
                ))

-- An operation on a consistent ledger, of whatever owner, never lowers the consumption that is
-- counted for an account and a provider day, and raises it by one at most.
pub Step-budget :
    {db db' : Ledger} (key : BudgetKey)
    → IsConsistent db
    → Step db db'
    → (count_detail_budget_consumed db key ≤ count_detail_budget_consumed db' key)
      × (count_detail_budget_consumed db' key ≤ count_detail_budget_consumed db key + 1)
Step-budget {db} key c (reserve r attempt_id now e) = (reserve-Grows key db r attempt_id now).at _ e
Step-budget {db} key c (transition o attempt_id r now e) =
    (transition-Grows key db o attempt_id r now c).at _ e
Step-budget {db} key c (respond o attempt_id response_id r now e) =
    (respond-Grows key db o attempt_id response_id r now c).at _ e

-- Consumption that was counted once is never returned: along every sequence of operations from a
-- consistent ledger the count of every account and provider day only grows.
pub Reach-budget :
    {db db' : Ledger} (key : BudgetKey)
    → IsConsistent db
    → Reach db db'
    → count_detail_budget_consumed db key ≤ count_detail_budget_consumed db' key
Reach-budget key c here = omega arith
Reach-budget key c (next r s) =
    omega (arith, Reach-budget key c r, Step-budget key (Reach-IsConsistent c r) s)
