-- ===== src/Liepin/Ledger/Operations/Faults.antt =====
-- The errors that `LiepinStore` raises as `RuntimeError`: a row that it has just written or that
-- it refers to is not found.
use cv_match.Liepin.Ledger.Operations.{
  Report, validate_detail_reservation_replay, update_detail_attempt, transition_detail_attempt,
  reserve_detail_attempt, apply_detail_worker_response, Reservation, found_or, reservation_key,
  apply_or_replay, reserve_or_replay, new_attempt, is_empty, changes_of, is_incomplete,
}
use cv_match.Liepin.Ledger.States.{
  LedgerError, reservation_lost, update_lost, response_dangling, DetailState, Consumption,
  validate_detail_transition, replay_mismatch, validate_iff, attempt_not_found,
  response_attempt_mismatch, response_id_missing, reservation_incomplete,
}
use cv_match.Common.{
  Result, ok, ◌>>=◌, Bool, ◌≡◌, arith, true, err, false, refl, refuse, Option, is_some, String,
  some, find, find-eq-some, ◌⊎◌, none, inl, inr, ap, find-All, ◌∙◌,
}
use cv_match.Liepin.Ledger.Tables.{
  insert_attempt, insert_response, fetch_response, Ledger, DetailAttempt, WorkerResponse,
  fetch_attempt, Owner, fetch_attempt_by_key, has_owned_id, has_response, update_rows,
}
use cv_match.Liepin.Ledger.Operations.Invariant.{IsConsistent, found_or-eq-ok, IsLinked}
use cv_match.Liepin.Ledger.Tables.Updates.{
  found-owner, same_owner-eq, find-update, has_owned_id-IsStable,
}
use cv_match.Liepin.Ledger.Operations.Replay.{insert-found}

abbrev pub is_internal : LedgerError → Bool
is_internal reservation_lost = true
is_internal update_lost = true
is_internal response_dangling = true
is_internal _ = false

-- A result is a value or an error that the caller can act on.
pub record IsSafe {A : Type 0} (m : Result LedgerError A) : Type 0 where
  pub at : (e : LedgerError) → m ≡ err e → is_internal e ≡ false

IsSafe-ok : {A : Type 0} (a : A) → IsSafe (ok a)
IsSafe-ok a = record { at = λ e h. ground arith }

IsSafe-err : {A : Type 0} (e : LedgerError) → is_internal e ≡ false → IsSafe {A = A} (err e)
IsSafe-err e outer = record { at = λ e' h. ground arith }

IsSafe-then :
    {A B : Type 0} (m : Result LedgerError A) (f : A → Result LedgerError B)
    → IsSafe m
    → ((a : A) → m ≡ ok a → IsSafe (f a))
    → IsSafe (m >>= f)
unfolding ◌>>=◌
IsSafe-then (ok a) f safe next = next a refl
IsSafe-then (err e) f safe next = record { at = λ e' h. safe.at e' (ground arith) }

refuse-IsSafe : (b : Bool) (e : LedgerError) → is_internal e ≡ false → IsSafe (refuse b e)
refuse-IsSafe true e outer = IsSafe-err e outer
refuse-IsSafe false e outer = IsSafe-ok tt

found_or-IsSafe :
    (e : LedgerError) (o : Option DetailAttempt) → is_internal e ≡ false → IsSafe (found_or e o)
found_or-IsSafe e none outer = IsSafe-err e outer
found_or-IsSafe e (some row) outer = IsSafe-ok row

found-IsSafe :
    (e : LedgerError) (o : Option DetailAttempt) → is_some o ≡ true → IsSafe (found_or e o)
found-IsSafe e none there = record { at = λ e' h. ground arith }
found-IsSafe e (some row) there = IsSafe-ok row

validate-IsSafe : (s t : DetailState) (c : Consumption) → IsSafe (validate_detail_transition s t c)
validate-IsSafe s t c = record { at = λ e h. ground (arith, validate_iff s t c) }

insert_attempt-IsSafe : (db : Ledger) (row : DetailAttempt) → IsSafe (insert_attempt db row)
unfolding insert_attempt
insert_attempt-IsSafe db row = record { at = λ e h. ground arith }

insert_response-IsSafe : (db : Ledger) (r : WorkerResponse) → IsSafe (insert_response db r)
unfolding insert_response
insert_response-IsSafe db r = record { at = λ e h. ground arith }

replay-IsSafe :
    (row : DetailAttempt) (r : Reservation) → IsSafe (validate_detail_reservation_replay row r)
unfolding validate_detail_reservation_replay
replay-IsSafe row r = refuse-IsSafe _ replay_mismatch refl

update-IsSafe :
    (db : Ledger) (o : Owner) (attempt_id : String) (row : DetailAttempt) (r : Report)
    (now : String)
    → fetch_attempt db o attempt_id ≡ some row
    → IsSafe (update_detail_attempt db row r now)
unfolding update_detail_attempt fetch_attempt
update-IsSafe db o attempt_id row r now found =
    IsSafe-then _ _ (validate-IsSafe row.state r.state r.consumption_state)
      λ _ _. IsSafe-then _ _ (found-IsSafe update_lost _ survives) λ updated _. IsSafe-ok _
  where
    again : find (has_owned_id row.owner row.attempt_id) db.attempts ≡ some row
    again =
        let (owner, id) = found-owner o attempt_id db.attempts row found in
        ap (λ a. find (has_owned_id a row.attempt_id) db.attempts) owner
        ∙ ap (λ b. find (has_owned_id o b) db.attempts) id
        ∙ found

    survives :
        is_some (
          find
            (has_owned_id row.owner row.attempt_id)
            (update_rows (changes_of row r now) row.attempt_id db.attempts))
        ≡ true
    survives = rw (
      find-update (changes_of row r now) row.attempt_id _
          (has_owned_id-IsStable (changes_of row r now) row.attempt_id row.owner row.attempt_id)
          db.attempts,
      again,
    )

-- A transition of a ledger never ends in an internal error.
transition-IsSafe :
    (db : Ledger) (o : Owner) (attempt_id : String) (r : Report) (now : String)
    → IsSafe (transition_detail_attempt db o attempt_id r now)
unfolding transition_detail_attempt
transition-IsSafe db o attempt_id r now =
    IsSafe-then _ _ (found_or-IsSafe attempt_not_found _ refl)
      λ row found. update-IsSafe db o attempt_id row r now (found_or-eq-ok _ _ found)

reserve-IsSafe :
    (db : Ledger) (r : Reservation) (attempt_id now : String)
    → IsSafe (reserve_detail_attempt db r attempt_id now)
unfolding reserve_detail_attempt
reserve-IsSafe db r attempt_id now =
    IsSafe-then _ _ (refuse-IsSafe (is_incomplete r) reservation_incomplete refl)
      λ _ _. branch (fetch_attempt_by_key db (reservation_key r)) refl
  where
    branch :
        (o : Option DetailAttempt)
        → fetch_attempt_by_key db (reservation_key r) ≡ o
        → IsSafe (reserve_or_replay db r attempt_id now o)
    branch (some row) e = IsSafe-then _ _ (replay-IsSafe row r) λ _ _. IsSafe-ok _
    branch none e =
        IsSafe-then _ _ (insert_attempt-IsSafe db (new_attempt r attempt_id now)) λ db' inserted.
          IsSafe-then _ _
            (found-IsSafe reservation_lost _
              (ap is_some ((insert-found db r attempt_id now e).at db' inserted)))
            λ row _. IsSafe-ok _

-- the record that a response names is there, for the same owner
linked-found :
    (db : Ledger) (o : Owner) (response_id : String) (r : WorkerResponse)
    → IsConsistent db
    → fetch_response db o response_id ≡ some r
    → is_some (fetch_attempt db o r.attempt_id) ≡ true
unfolding fetch_response fetch_attempt
linked-found db o response_id r c found =
    let owned = find-eq-some (has_response o response_id) db.responses r found in
    let e : r.owner ≡ o = same_owner-eq r.owner o (ground arith) in
    let link =
      find-All (IsLinked db.attempts) (has_response o response_id) db.responses c.linked found in
    rw e at link

apply-IsSafe :
    (db : Ledger) (o : Owner) (attempt_id response_id : String) (r : Report) (now : String)
    → IsConsistent db
    → IsSafe (apply_detail_worker_response db o attempt_id response_id r now)
unfolding apply_detail_worker_response
apply-IsSafe db o attempt_id response_id r now c =
    IsSafe-then _ _ (refuse-IsSafe (is_empty response_id) response_id_missing refl)
      λ _ _. branch (fetch_response db o response_id) refl
  where
    branch :
        (seen : Option WorkerResponse)
        → fetch_response db o response_id ≡ seen
        → IsSafe (apply_or_replay db o attempt_id response_id r now seen)
    branch (some duplicate) e =
        IsSafe-then _ _ (refuse-IsSafe _ response_attempt_mismatch refl) λ _ _.
          IsSafe-then _ _
            (found-IsSafe response_dangling _ (linked-found db o response_id duplicate c e))
            λ row _. IsSafe-ok _
    branch none e = IsSafe-then _ _ (found_or-IsSafe attempt_not_found _ refl) λ row found.
        IsSafe-then {A = DetailAttempt × Ledger} _ _
          (update-IsSafe db o attempt_id row r now (found_or-eq-ok _ _ found))
          λ t changed. IsSafe-then _ _ (insert_response-IsSafe t.1 _) λ db'' inserted. IsSafe-ok _

-- From a consistent ledger no operation raises one of the store's internal errors: a reservation
-- finds the row that it wrote, an update the row that it changed, and a replayed response the
-- attempt that it names.
pub no_internal_error :
    (db : Ledger) (r : Reservation) (o : Owner) (attempt_id response_id : String) (report : Report)
    (now : String) (e : LedgerError)
    → IsConsistent db
    → (reserve_detail_attempt db r attempt_id now ≡ err e)
      ⊎ (transition_detail_attempt db o attempt_id report now ≡ err e)
      ⊎ (apply_detail_worker_response db o attempt_id response_id report now ≡ err e)
    → is_internal e ≡ false
no_internal_error db r o attempt_id response_id report now e c (inl h) =
    (reserve-IsSafe db r attempt_id now).at e h
no_internal_error db r o attempt_id response_id report now e c (inr (inl h)) =
    (transition-IsSafe db o attempt_id report now).at e h
no_internal_error db r o attempt_id response_id report now e c (inr (inr h)) =
    (apply-IsSafe db o attempt_id response_id report now c).at e h
