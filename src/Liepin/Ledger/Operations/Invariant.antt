-- ===== src/Liepin/Ledger/Operations/Invariant.antt =====
-- What the tables of the ledger satisfy after any sequence of operations: the constraints of the
-- schema, a consumption that fits the state of its row, and responses that name a row.
use cv_match.Common.{
  String, ◌≡◌, refl, true, ◌||◌, Option, none, some, List, [], ◌∷◌, ◌++◌, ok, OnOk, OnOk-ok,
  OnOk-err, OnOk-then, arith, find, any, All, All-append, All-map, Distinct, Distinct-snoc,
  find-append, is_some, Bool-cases, inl, inr,
}
use cv_match.Liepin.Ledger.States.{
  is_valid_pair, is_allowed, LedgerError, validate_detail_transition, validate_iff,
}
use cv_match.Liepin.Ledger.Tables.{
  Owner, DetailAttempt, WorkerResponse, Ledger, Changes, has_owned_id, fetch_attempt, has_response,
  insert_attempt, insert_response, set_columns, update_rows,
}
use cv_match.Liepin.Ledger.Tables.Updates.{
  clash_id, clash_key, clash_id_comm, clash_key_comm, updated?, find-update, has_owned_id-IsStable,
  clash_id-IsStable, clash_key-IsStable, Distinct-update, update_rows-All,
}
use cv_match.Liepin.Ledger.Operations.{
  Reservation, Report, new_attempt, changes_of, found_or, reserve_or_replay, reserve_detail_attempt,
  update_detail_attempt, transition_detail_attempt, apply_or_replay, apply_detail_worker_response,
}

abbrev pub FitsState : DetailAttempt → Type 0
FitsState row = is_valid_pair row.state row.consumption_state ≡ true

abbrev pub IsLinked : List DetailAttempt → WorkerResponse → Type 0
IsLinked rows r = is_some (find (has_owned_id r.owner r.attempt_id) rows) ≡ true

pub record IsConsistent (db : Ledger) : Type 0 where
  pub ids : Distinct clash_id db.attempts
  pub keys : Distinct clash_key db.attempts
  pub fitting : All FitsState db.attempts
  pub linked : All (IsLinked db.attempts) db.responses

IsLinked-snoc :
    (row : DetailAttempt) (rows : List DetailAttempt) (r : WorkerResponse)
    → IsLinked rows r
    → IsLinked (rows ++ row ∷ []) r
IsLinked-snoc row rows r h =
    ground (arith, find-append (has_owned_id r.owner r.attempt_id) rows (row ∷ []))

insert_attempt-IsConsistent :
    (db : Ledger) (row : DetailAttempt)
    → IsConsistent db
    → FitsState row
    → OnOk IsConsistent (insert_attempt db row)
unfolding insert_attempt
insert_attempt-IsConsistent db row c fits =
    elim (Bool-cases (any (clash_id row) db.attempts || any (clash_key row) db.attempts)) [
      | inl e ↦ rw e (OnOk-err IsConsistent _)
      | inr e ↦ rw e (
          OnOk-ok IsConsistent _ (record {
            ids = Distinct-snoc clash_id clash_id_comm db.attempts row c.ids (ground arith);
            keys = Distinct-snoc clash_key clash_key_comm db.attempts row c.keys (ground arith);
            fitting = All-append FitsState db.attempts (row ∷ []) c.fitting (fits, tt);
            linked = All-map db.responses (IsLinked-snoc row db.attempts) c.linked;
          }))
    ]

insert_response-IsConsistent :
    (db : Ledger) (r : WorkerResponse)
    → IsConsistent db
    → IsLinked db.attempts r
    → OnOk IsConsistent (insert_response db r)
unfolding insert_response
insert_response-IsConsistent db r c link =
    elim (Bool-cases (any (has_response r.owner r.worker_response_id) db.responses)) [
      | inl e ↦ rw e (OnOk-err IsConsistent _)
      | inr e ↦ rw e (
          OnOk-ok IsConsistent _ (record {
            ids = c.ids;
            keys = c.keys;
            fitting = c.fitting;
            linked = All-append (IsLinked db.attempts) db.responses (r ∷ []) c.linked (link, tt);
          }))
    ]

IsLinked-update :
    (c : Changes) (attempt_id : String) (rows : List DetailAttempt) (r : WorkerResponse)
    → IsLinked rows r
    → IsLinked (update_rows c attempt_id rows) r
IsLinked-update c attempt_id rows r h =
    rw (find-update c attempt_id _ (has_owned_id-IsStable c attempt_id r.owner r.attempt_id) rows)
      (some-updated (find (has_owned_id r.owner r.attempt_id) rows) h)
  where
    some-updated :
        (o : Option DetailAttempt) → is_some o ≡ true → is_some (updated? c attempt_id o) ≡ true
    some-updated none h = h
    some-updated (some row) h = refl

update-IsConsistent :
    (db : Ledger) (c : Changes) (attempt_id : String)
    → is_valid_pair c.state c.consumption_state ≡ true
    → IsConsistent db
    → IsConsistent (record db { attempts = update_rows c attempt_id db.attempts })
unfolding set_columns
update-IsConsistent db c attempt_id fits k = record {
  ids =
      Distinct-update c attempt_id clash_id (clash_id-IsStable c attempt_id) clash_id_comm
        db.attempts k.ids;
  keys =
      Distinct-update c attempt_id clash_key (clash_key-IsStable c attempt_id) clash_key_comm
        db.attempts k.keys;
  fitting = update_rows-All c attempt_id FitsState db.attempts (λ _. fits) k.fitting;
  linked = All-map db.responses (IsLinked-update c attempt_id db.attempts) k.linked;
}

-- An accepted transition leaves the pair that it was asked for, which fits.
pub validated-fits :
    (row : DetailAttempt) (r : Report) {u : Unit {0}}
    → validate_detail_transition row.state r.state r.consumption_state ≡ ok u
    → (is_allowed row.state r.state ≡ true) × (is_valid_pair r.state r.consumption_state ≡ true)
validated-fits row r h = ground (arith, validate_iff row.state r.state r.consumption_state)

abbrev pub Committed : DetailAttempt × Ledger → Type 0
Committed t = IsConsistent t.1

update_detail_attempt-IsConsistent :
    (db : Ledger) (row : DetailAttempt) (r : Report) (now : String)
    → IsConsistent db
    → OnOk Committed (update_detail_attempt db row r now)
unfolding update_detail_attempt
update_detail_attempt-IsConsistent db row r now c = OnOk-then Committed _ _ λ _ valid.
    OnOk-then Committed _ _ λ _ _. OnOk-ok Committed _ (
      update-IsConsistent db (changes_of row r now) row.attempt_id (validated-fits row r valid).1 c)

-- the reservation branch
reserve_or_replay-IsConsistent :
    (db : Ledger) (r : Reservation) (attempt_id now : String) (o : Option DetailAttempt)
    → IsConsistent db
    → OnOk Committed (reserve_or_replay db r attempt_id now o)
unfolding is_valid_pair new_attempt
reserve_or_replay-IsConsistent db r attempt_id now (some row) c =
    OnOk-then Committed _ _ λ _ _. OnOk-ok Committed _ c
reserve_or_replay-IsConsistent db r attempt_id now none c = OnOk-then Committed _ _ λ db' inserted.
    OnOk-then Committed _ _ λ row _.
      OnOk-ok Committed _
        ((insert_attempt-IsConsistent db (new_attempt r attempt_id now) c refl).at db' inserted)

-- A reservation keeps the tables consistent.
pub reserve-IsConsistent :
    (db : Ledger) (r : Reservation) (attempt_id now : String)
    → IsConsistent db
    → OnOk Committed (reserve_detail_attempt db r attempt_id now)
unfolding reserve_detail_attempt
reserve-IsConsistent db r attempt_id now c =
    OnOk-then Committed _ _ λ _ _. reserve_or_replay-IsConsistent db r attempt_id now _ c

pub transition-IsConsistent :
    (db : Ledger) (o : Owner) (attempt_id : String) (r : Report) (now : String)
    → IsConsistent db
    → OnOk Committed (transition_detail_attempt db o attempt_id r now)
unfolding transition_detail_attempt
transition-IsConsistent db o attempt_id r now c =
    OnOk-then Committed _ _ λ row _. update_detail_attempt-IsConsistent db row r now c

abbrev StillFound : Owner → String → DetailAttempt × Ledger → Type 0
StillFound o attempt_id t = is_some (fetch_attempt t.1 o attempt_id) ≡ true

pub found_or-eq-ok :
    (e : LedgerError) (o : Option DetailAttempt) {row : DetailAttempt}
    → found_or e o ≡ ok row
    → o ≡ some row
found_or-eq-ok e none h = cc
found_or-eq-ok e (some row) h = cc

-- A row that an update changes is still found under its owner and id.
StillFound-update :
    (db : Ledger) (o : Owner) (attempt_id : String) (row : DetailAttempt) (r : Report)
    (now : String)
    → fetch_attempt db o attempt_id ≡ some row
    → OnOk (StillFound o attempt_id) (update_detail_attempt db row r now)
unfolding update_detail_attempt fetch_attempt
StillFound-update db o attempt_id row r now found = OnOk-then (StillFound o attempt_id) _ _ λ _ _.
    OnOk-then (StillFound o attempt_id) _ _ λ updated _.
      OnOk-ok (StillFound o attempt_id)
        (
          updated,
          record db { attempts = update_rows (changes_of row r now) row.attempt_id db.attempts },
        )
        (rw (
          find-update (changes_of row r now) row.attempt_id _
              (has_owned_id-IsStable (changes_of row r now) row.attempt_id o attempt_id)
              db.attempts,
          found,
        ))

apply_or_replay-IsConsistent :
    (db : Ledger) (o : Owner) (attempt_id response_id : String) (r : Report) (now : String)
    (seen : Option WorkerResponse)
    → IsConsistent db
    → OnOk Committed (apply_or_replay db o attempt_id response_id r now seen)
unfolding fetch_attempt
apply_or_replay-IsConsistent db o attempt_id response_id r now (some duplicate) c =
    OnOk-then Committed _ _ λ _ _. OnOk-then Committed _ _ λ row _. OnOk-ok Committed _ c
apply_or_replay-IsConsistent db o attempt_id response_id r now none c =
    OnOk-then Committed _ _ λ row found. OnOk-then Committed _ _ λ t changed.
      OnOk-then Committed _ _ λ db'' inserted. OnOk-ok Committed _ (
        (insert_response-IsConsistent t.1 _
            ((update_detail_attempt-IsConsistent db row r now c).at t changed)
            ((StillFound-update db o attempt_id row r now (found_or-eq-ok _ _ found)).at t
              changed)).at
          db'' inserted)

pub apply-IsConsistent :
    (db : Ledger) (o : Owner) (attempt_id response_id : String) (r : Report) (now : String)
    → IsConsistent db
    → OnOk Committed (apply_detail_worker_response db o attempt_id response_id r now)
unfolding apply_detail_worker_response
apply-IsConsistent db o attempt_id response_id r now c =
    OnOk-then Committed _ _
      λ _ _. apply_or_replay-IsConsistent db o attempt_id response_id r now _ c
