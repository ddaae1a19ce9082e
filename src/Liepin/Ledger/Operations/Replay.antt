-- ===== src/Liepin/Ledger/Operations/Replay.antt =====
-- A request that is sent again: `reserve_detail_attempt` is idempotent in its key, and
-- `apply in its response id.
use cv_match.Liepin.Ledger.Operations.{
  Reservation, validate_detail_reservation_replay, new_attempt, reserve_detail_attempt,
  reservation_key, reserve_or_replay, is_incomplete, is_empty, update_detail_attempt,
  apply_detail_worker_response, Report, changes_of, apply_or_replay,
}
use cv_match.Liepin.Ledger.Tables.{
  ReservationKey, insert_attempt, DetailAttempt, fetch_attempt_by_key, Ledger, has_key, Owner,
  insert_response, fetch_response, WorkerResponse, fetch_attempt, has_response, update_rows,
  has_owned_id,
}
use cv_match.Common.{
  String, ◌>>=◌, ◌≡◌, OnOk, some, ok, true, none, Option, Bool-cases, any, OnOk-then, OnOk-ok, ◌||◌,
  inl, inr, OnOk-err, find-append, ◌∷◌, [], arith, ◌∙◌, false, ◌++◌, ok-injective, refl, refuse,
  str_eq_iff, ap, find,
}
use cv_match.Liepin.Ledger.Tables.Updates.{
  str_eq_refl, same_owner_refl, clash_id, clash_key, found-owner,
}
use cv_match.Liepin.Ledger.Operations.Invariant.{found_or-eq-ok}
use cv_match.Liepin.Ledger.States.{response_id_missing}

abbrev pub FoundAs : ReservationKey → DetailAttempt → Ledger → Type 0
FoundAs key row db = fetch_attempt_by_key db key ≡ some row

-- What a reservation returns is the row of its key, and it matches the request.
abbrev Reserved : Reservation → DetailAttempt × Ledger → Type 0
Reserved r t =
    (fetch_attempt_by_key t.1 (reservation_key r) ≡ some t.0)
    × (validate_detail_reservation_replay t.0 r ≡ ok tt)

validate-new :
    (r : Reservation) (attempt_id now : String)
    → validate_detail_reservation_replay (new_attempt r attempt_id now) r ≡ ok tt
unfolding validate_detail_reservation_replay new_attempt
validate-new r attempt_id now =
    rw (str_eq_refl r.candidate_provider_id, str_eq_refl r.provider_day_key, str_eq_refl r.timezone)

has_key-new :
    (r : Reservation) (attempt_id now : String)
    → has_key (reservation_key r) (new_attempt r attempt_id now) ≡ true
unfolding new_attempt
has_key-new r attempt_id now = rw (
  same_owner_refl r.owner,
  str_eq_refl r.provider_account_hash,
  str_eq_refl r.budget_date,
  str_eq_refl r.idempotency_key,
)

-- After an accepted INSERT the new row is the one of its key.
pub insert-found :
    (db : Ledger) (r : Reservation) (attempt_id now : String)
    → fetch_attempt_by_key db (reservation_key r) ≡ none
    → OnOk
        (FoundAs (reservation_key r) (new_attempt r attempt_id now))
        (insert_attempt db (new_attempt r attempt_id now))
unfolding insert_attempt fetch_attempt_by_key
insert-found db r attempt_id now free =
    elim (Bool-cases (any (clash_id new) db.attempts || any (clash_key new) db.attempts)) [
      | inl e ↦ rw e (OnOk-err (FoundAs (reservation_key r) new) _)
      | inr e ↦ rw e (
          OnOk-ok (FoundAs (reservation_key r) new) _ (
            rw (find-append (has_key (reservation_key r)) db.attempts (new ∷ []), free)
              (ground (arith, has_key-new r attempt_id now))))
    ]
  where
    new : DetailAttempt
    new = new_attempt r attempt_id now

reserve-Reserved :
    (db : Ledger) (r : Reservation) (attempt_id now : String)
    → OnOk (Reserved r) (reserve_detail_attempt db r attempt_id now)
unfolding reserve_detail_attempt
reserve-Reserved db r attempt_id now =
    OnOk-then (Reserved r) _ _ λ _ _. branch (fetch_attempt_by_key db (reservation_key r)) refl
  where
    branch :
        (o : Option DetailAttempt)
        → fetch_attempt_by_key db (reservation_key r) ≡ o
        → OnOk (Reserved r) (reserve_or_replay db r attempt_id now o)
    branch (some row) e =
        OnOk-then (Reserved r) _ _ λ u matches. OnOk-ok (Reserved r) (row, db) (e, matches)
    branch none e = OnOk-then (Reserved r) _ _ λ db' inserted.
        OnOk-then (Reserved r) _ _ λ row found.
          let now_there = (insert-found db r attempt_id now e).at db' inserted in
          let returned : fetch_attempt_by_key db' (reservation_key r) ≡ some row =
            found_or-eq-ok _ _ found in
          let same : new_attempt r attempt_id now ≡ row = cc (now_there, returned) in
          OnOk-ok (Reserved r) (row, db') (returned, rw (← same) (validate-new r attempt_id now))

-- A reservation that is made again, with whatever fresh id and at whatever time, returns the row
-- that the first call returned and changes nothing.
pub reserve-reserve :
    (db : Ledger) (r : Reservation) (attempt_id now attempt_id' now' : String) (row : DetailAttempt)
    (db' : Ledger)
    → reserve_detail_attempt db r attempt_id now ≡ ok (row, db')
    → reserve_detail_attempt db' r attempt_id' now' ≡ ok (row, db')
unfolding reserve_detail_attempt ◌>>=◌
reserve-reserve db r attempt_id now attempt_id' now' row db' h =
    let reserved = (reserve-Reserved db r attempt_id now).at (row, db') h in
    elim (Bool-cases (is_incomplete r)) [
      | inl e ↦ absurd (cc (rw e at h))
      | inr e ↦ rw (e, reserved.0, reserved.1)
    ]

-- A response that has been applied is on record under its id, for the attempt that it named, and
-- the row that was returned is the attempt's.
abbrev Applied : Owner → String → String → DetailAttempt × Ledger → Type 0
Applied o attempt_id response_id t =
    (is_empty response_id ≡ false)
    × (fetch_attempt t.1 o attempt_id ≡ some t.0)
    × ((r : WorkerResponse) × (fetch_response t.1 o response_id ≡ some r)
        × (r.attempt_id ≡ attempt_id))

response-recorded :
    (db : Ledger) (r : WorkerResponse) (db' : Ledger)
    → fetch_response db r.owner r.worker_response_id ≡ none
    → insert_response db r ≡ ok db'
    → (fetch_response db' r.owner r.worker_response_id ≡ some r) × (db'.attempts ≡ db.attempts)
unfolding insert_response fetch_response
response-recorded db r db' free h =
    elim (Bool-cases (any (has_response r.owner r.worker_response_id) db.responses)) [
      | inl e ↦ absurd (cc (rw e at h))
      | inr e ↦
          let done : record db { responses = db.responses ++ r ∷ [] } ≡ db' =
            ok-injective (rw e at h) in
          rw (← done) (
            rw (
              find-append (has_response r.owner r.worker_response_id) db.responses (r ∷ []),
              free,
              same_owner_refl r.owner,
              str_eq_refl r.worker_response_id,
            ),
            refl,
          )
    ]

-- The row that an update returns is the one that a search under its owner and id finds after it.
update-returns :
    (db : Ledger) (o : Owner) (attempt_id : String) (row : DetailAttempt) (r : Report)
    (now : String)
    → fetch_attempt db o attempt_id ≡ some row
    → OnOk (λ t. fetch_attempt t.1 o attempt_id ≡ some t.0) (update_detail_attempt db row r now)
unfolding update_detail_attempt
update-returns db o attempt_id row r now found =
    let (owner, id) = found-owner o attempt_id db.attempts row (unfold fetch_attempt in found) in
    OnOk-then (λ t. fetch_attempt t.1 o attempt_id ≡ some t.0) _ _
      λ _ _.
        OnOk-then (λ t. fetch_attempt t.1 o attempt_id ≡ some t.0) _ _
          λ updated there.
            OnOk-ok (λ t. fetch_attempt t.1 o attempt_id ≡ some t.0)
              (
                updated,
                record db {
                  attempts = update_rows (changes_of row r now) row.attempt_id db.attempts;
                },
              )
              (rw (← owner, ← id) (found_or-eq-ok _ _ there))

-- An update leaves the responses alone.
update-responses :
    (db : Ledger) (row : DetailAttempt) (r : Report) (now : String)
    → OnOk (λ t. t.1.responses ≡ db.responses) (update_detail_attempt db row r now)
unfolding update_detail_attempt
update-responses db row r now =
    OnOk-then (λ t. t.1.responses ≡ db.responses) _ _
      λ _ _.
        OnOk-then (λ t. t.1.responses ≡ db.responses) _ _
          λ updated _. OnOk-ok (λ t. t.1.responses ≡ db.responses) _ refl

fetch-same :
    (db db' : Ledger) (o : Owner) (attempt_id : String)
    → db'.attempts ≡ db.attempts
    → fetch_attempt db' o attempt_id ≡ fetch_attempt db o attempt_id
unfolding fetch_attempt
fetch-same db db' o attempt_id e = ap (find (has_owned_id o attempt_id)) e

none-same :
    (db db' : Ledger) (o : Owner) (response_id : String)
    → db'.responses ≡ db.responses
    → fetch_response db o response_id ≡ none
    → fetch_response db' o response_id ≡ none
unfolding fetch_response
none-same db db' o response_id e h = ap (find (has_response o response_id)) e ∙ h

apply-Applied :
    (db : Ledger) (o : Owner) (attempt_id response_id : String) (r : Report) (now : String)
    → OnOk
        (Applied o attempt_id response_id)
        (apply_detail_worker_response db o attempt_id response_id r now)
unfolding apply_detail_worker_response
apply-Applied db o attempt_id response_id r now =
    OnOk-then P _ _ λ _ given. branch given (fetch_response db o response_id) refl
  where
    P : DetailAttempt × Ledger → Type 0
    P = Applied o attempt_id response_id

    branch :
        {u : Unit {0}}
        → refuse (is_empty response_id) response_id_missing ≡ ok u
        → (seen : Option WorkerResponse) → fetch_response db o response_id ≡ seen
        → OnOk P (apply_or_replay db o attempt_id response_id r now seen)
    branch given (some duplicate) e = OnOk-then P _ _ λ _ same. OnOk-then P _ _ λ row found.
        let id : duplicate.attempt_id ≡ attempt_id =
          ground (arith, str_eq_iff duplicate.attempt_id attempt_id) in
        OnOk-ok P (row, db) (ground arith, rw (← id) (found_or-eq-ok _ _ found), (duplicate, e, id))
    branch given none e = OnOk-then P _ _ λ row found.
        OnOk-then {A = DetailAttempt × Ledger} P _ _ λ t changed. OnOk-then P _ _ λ db'' inserted.
          let recorded =
            response-recorded t.1 _ db''
              (none-same db t.1 o response_id ((update-responses db row r now).at t changed) e)
              inserted in
          OnOk-ok P (t.0, db'')
            (
              ground arith,
              fetch-same t.1 db'' o attempt_id recorded.1
                  ∙ (update-returns db o attempt_id row r now (found_or-eq-ok _ _ found)).at t
                      changed,
              (_, recorded.0, refl),
            )

-- A worker response that is delivered again under its id, whatever it now reports and at whatever
-- time, changes nothing and returns the row that its first delivery returned.
pub apply-apply :
    (db : Ledger) (o : Owner) (attempt_id response_id : String) (r r' : Report) (now now' : String)
    (row : DetailAttempt) (db' : Ledger)
    → apply_detail_worker_response db o attempt_id response_id r now ≡ ok (row, db')
    → apply_detail_worker_response db' o attempt_id response_id r' now' ≡ ok (row, db')
unfolding apply_detail_worker_response ◌>>=◌
apply-apply db o attempt_id response_id r r' now now' row db' h =
    let (given, current, recorded) =
      (apply-Applied db o attempt_id response_id r now).at (row, db') h in
    let (duplicate, there, id) = recorded in rw (given, there, id, str_eq_refl attempt_id, current)
