-- ===== src/Liepin/Ledger/Operations.antt =====
-- The methods of `LiepinStore` that change the ledger of detail attempts. A method runs in one
-- transaction, which an exception rolls back, so it returns the row and the new tables, or an
-- error. The new attempt's id and the time are arguments: the source draws them from `uuid4` and
-- the clock.
pub mod Invariant
pub mod History
pub mod Budget
pub mod Replay
pub mod Finality
pub mod Faults
mod Tests
use cv_match.Common.{
  String, Bool, true, false, not, ◌||◌, Option, none, some, Result, ok, err, ◌>>=◌, ◌>>◌, refuse,
  str_eq, if◌then◌else◌,
}
use cv_match.Liepin.Ledger.States.{
  DetailState, started, approved_not_started, Consumption, not_consumed, LedgerError,
  reservation_incomplete, replay_mismatch, attempt_not_found, response_id_missing,
  response_attempt_mismatch, reservation_lost, update_lost, response_dangling, is_completed,
  validate_detail_transition,
}
use cv_match.Liepin.Ledger.Tables.{
  Owner, DetailAttempt, WorkerResponse, Ledger, ReservationKey, Changes, fetch_attempt,
  fetch_attempt_by_key, insert_attempt, fetch_response, insert_response, update_rows,
}

abbrev pub Transaction : Type 0
Transaction = Result LedgerError (DetailAttempt × Ledger)

abbrev is_empty : String → Bool
is_empty s = str_eq s ""

pub record Reservation : Type 0 where
  pub owner : Owner
  pub provider_account_hash : String
  pub candidate_provider_id : String
  pub budget_date : String
  pub provider_day_key : String
  pub timezone : String
  pub idempotency_key : String

abbrev pub reservation_key : Reservation → ReservationKey
reservation_key r = record {
  owner = r.owner;
  provider_account_hash = r.provider_account_hash;
  budget_date = r.budget_date;
  idempotency_key = r.idempotency_key;
}

-- the six fields that `all([...])` wants
is_incomplete : Reservation → Bool
is_incomplete r =
    is_empty r.provider_account_hash
    || (is_empty r.candidate_provider_id
        || (is_empty r.budget_date
            || (is_empty r.provider_day_key
                || (is_empty r.timezone || is_empty r.idempotency_key))))

-- `_validate_detail_reservation_replay`
validate_detail_reservation_replay : DetailAttempt → Reservation → Result LedgerError (Unit {0})
validate_detail_reservation_replay row r =
    refuse
      (not (str_eq row.candidate_provider_id r.candidate_provider_id)
        || (not (str_eq row.provider_day_key r.provider_day_key)
            || not (str_eq row.timezone r.timezone)))
      replay_mismatch

pub new_attempt : Reservation → String → String → DetailAttempt
new_attempt r attempt_id now = record {
  attempt_id = attempt_id;
  owner = r.owner;
  provider_account_hash = r.provider_account_hash;
  candidate_provider_id = r.candidate_provider_id;
  idempotency_key = r.idempotency_key;
  state = approved_not_started;
  consumption_state = not_consumed;
  started_at = none;
  completed_at = none;
  worker_command_id = none;
  raw_evidence_ref = none;
  budget_date = r.budget_date;
  provider_day_key = r.provider_day_key;
  timezone = r.timezone;
  created_at = now;
  updated_at = now;
}

abbrev found_or : LedgerError → Option DetailAttempt → Result LedgerError DetailAttempt
found_or e none = err e
found_or e (some row) = ok row

-- the branch on the row that the reservation's key already has
abbrev reserve_or_replay :
    Ledger → Reservation → String → String → Option DetailAttempt → Transaction
reserve_or_replay db r attempt_id now (some existing) = do
  validate_detail_reservation_replay existing r
  ok (existing, db)
reserve_or_replay db r attempt_id now none = do
  db' ← insert_attempt db (new_attempt r attempt_id now)
  row ← found_or reservation_lost (fetch_attempt_by_key db' (reservation_key r))
  ok (row, db')

pub reserve_detail_attempt : Ledger → Reservation → String → String → Transaction
unfolding is_incomplete validate_detail_reservation_replay new_attempt
reserve_detail_attempt db r attempt_id now = do
  refuse (is_incomplete r) reservation_incomplete
  reserve_or_replay db r attempt_id now (fetch_attempt_by_key db (reservation_key r))

abbrev is_started : DetailState → Bool
is_started started = true
is_started _ = false

-- `x if x is not None else y`, and a time stamp that is set once
abbrev or_else : Option String → Option String → Option String
or_else none old = old
or_else (some x) old = some x

abbrev stamp_once : Bool → String → Option String → Option String
stamp_once due now (some t) = some t
stamp_once due now none = if due then some now else none

-- What a worker reports of an attempt.
pub record Report : Type 0 where
  pub state : DetailState
  pub consumption_state : Consumption
  pub worker_command_id : Option String
  pub raw_evidence_ref : Option String

pub changes_of : DetailAttempt → Report → String → Changes
changes_of row report now = record {
  state = report.state;
  consumption_state = report.consumption_state;
  started_at = stamp_once (is_started report.state) now row.started_at;
  completed_at = stamp_once (is_completed report.state) now row.completed_at;
  worker_command_id = or_else report.worker_command_id row.worker_command_id;
  raw_evidence_ref = or_else report.raw_evidence_ref row.raw_evidence_ref;
  updated_at = now;
}

-- `_update_detail_attempt`
pub update_detail_attempt : Ledger → DetailAttempt → Report → String → Transaction
unfolding changes_of
update_detail_attempt db row report now = do
  validate_detail_transition row.state report.state report.consumption_state
  let db' = record db {
    attempts = update_rows (changes_of row report now) row.attempt_id db.attempts;
  }
  updated ← found_or update_lost (fetch_attempt db' row.owner row.attempt_id)
  ok (updated, db')

pub transition_detail_attempt : Ledger → Owner → String → Report → String → Transaction
unfolding update_detail_attempt
transition_detail_attempt db owner attempt_id report now = do
  row ← found_or attempt_not_found (fetch_attempt db owner attempt_id)
  update_detail_attempt db row report now

-- the branch on a response of this id that was applied before
abbrev apply_or_replay :
    Ledger → Owner → String → String → Report → String → Option WorkerResponse → Transaction
apply_or_replay db owner attempt_id response_id report now (some duplicate) = do
  refuse (not (str_eq duplicate.attempt_id attempt_id)) response_attempt_mismatch
  row ← found_or response_dangling (fetch_attempt db owner duplicate.attempt_id)
  ok (row, db)
apply_or_replay db owner attempt_id response_id report now none = do
  row ← found_or attempt_not_found (fetch_attempt db owner attempt_id)
  (updated, db') ← update_detail_attempt db row report now
  db'' ← insert_response db' (record {
    owner = owner;
    worker_response_id = response_id;
    attempt_id = attempt_id;
    created_at = now;
  })
  ok (updated, db'')

pub apply_detail_worker_response : Ledger → Owner → String → String → Report → String → Transaction
unfolding update_detail_attempt
apply_detail_worker_response db owner attempt_id response_id report now = do
  refuse (is_empty response_id) response_id_missing
  apply_or_replay db owner attempt_id response_id report now (fetch_response db owner response_id)
