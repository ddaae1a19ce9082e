-- ===== src/Liepin/Ledger/Tables.antt =====
-- The tables `liepin_detail_attempts` and `liepin_detail_worker_responses` of store.py, and the
-- statements that its methods run on them. SQLite keeps the rows of a table in the order of their
-- insertion here; a statement that names a key finds one row at most, so no result depends on it.
pub mod Updates
use cv_match.Common.{
  ℕ, String, Bool, ◌&&◌, ◌||◌, Option, List, [], ◌∷◌, ◌++◌, Result, ok, err, str_eq, if◌then◌else◌,
  find, any, select, length,
}
use cv_match.Liepin.Ledger.States.{
  DetailState, Consumption, LedgerError, integrity, counts_for_budget,
}

-- the columns that scope every row
pub record Owner : Type 0 where
  pub tenant_id : String
  pub workspace_id : String
  pub actor_id : String

pub record DetailAttempt : Type 0 where
  pub attempt_id : String
  pub owner : Owner
  pub provider_account_hash : String
  pub candidate_provider_id : String
  pub idempotency_key : String
  pub state : DetailState
  pub consumption_state : Consumption
  pub started_at : Option String
  pub completed_at : Option String
  pub worker_command_id : Option String
  pub raw_evidence_ref : Option String
  pub budget_date : String
  pub provider_day_key : String
  pub timezone : String
  pub created_at : String
  pub updated_at : String

pub record WorkerResponse : Type 0 where
  pub owner : Owner
  pub worker_response_id : String
  pub attempt_id : String
  pub created_at : String

pub record Ledger : Type 0 where
  pub attempts : List DetailAttempt
  pub responses : List WorkerResponse

abbrev pub same_owner : Owner → Owner → Bool
same_owner a b =
    str_eq a.tenant_id b.tenant_id
    && (str_eq a.workspace_id b.workspace_id && str_eq a.actor_id b.actor_id)

-- The columns of the table's UNIQUE constraint.
pub record ReservationKey : Type 0 where
  pub owner : Owner
  pub provider_account_hash : String
  pub budget_date : String
  pub idempotency_key : String

abbrev pub has_id : String → DetailAttempt → Bool
has_id attempt_id row = str_eq row.attempt_id attempt_id

abbrev pub has_owned_id : Owner → String → DetailAttempt → Bool
has_owned_id owner attempt_id row = same_owner row.owner owner && has_id attempt_id row

abbrev pub has_key : ReservationKey → DetailAttempt → Bool
has_key key row =
    same_owner row.owner key.owner
    && (str_eq row.provider_account_hash key.provider_account_hash
        && (str_eq row.budget_date key.budget_date
            && str_eq row.idempotency_key key.idempotency_key))

abbrev pub key_of : DetailAttempt → ReservationKey
key_of row = record {
  owner = row.owner;
  provider_account_hash = row.provider_account_hash;
  budget_date = row.budget_date;
  idempotency_key = row.idempotency_key;
}

-- `_fetch_detail_attempt`
unfoldable pub fetch_attempt : Ledger → Owner → String → Option DetailAttempt
fetch_attempt db owner attempt_id = find (has_owned_id owner attempt_id) db.attempts

-- `_fetch_detail_attempt_by_key`
unfoldable pub fetch_attempt_by_key : Ledger → ReservationKey → Option DetailAttempt
fetch_attempt_by_key db key = find (has_key key) db.attempts

-- INSERT INTO liepin_detail_attempts: the primary key and the UNIQUE constraint refuse a row.
unfoldable pub insert_attempt : Ledger → DetailAttempt → Result LedgerError Ledger
insert_attempt db row =
    if any (has_id row.attempt_id) db.attempts || any (has_key (key_of row)) db.attempts
    then err integrity
    else ok (record db { attempts = db.attempts ++ row ∷ [] })

abbrev pub has_response : Owner → String → WorkerResponse → Bool
has_response owner response_id r =
    same_owner r.owner owner && str_eq r.worker_response_id response_id

unfoldable pub fetch_response : Ledger → Owner → String → Option WorkerResponse
fetch_response db owner response_id = find (has_response owner response_id) db.responses

-- INSERT INTO liepin_detail_worker_responses
unfoldable pub insert_response : Ledger → WorkerResponse → Result LedgerError Ledger
insert_response db r =
    if any (has_response r.owner r.worker_response_id) db.responses
    then err integrity
    else ok (record db { responses = db.responses ++ r ∷ [] })

-- What UPDATE liepin_detail_attempts sets.
pub record Changes : Type 0 where
  pub state : DetailState
  pub consumption_state : Consumption
  pub started_at : Option String
  pub completed_at : Option String
  pub worker_command_id : Option String
  pub raw_evidence_ref : Option String
  pub updated_at : String

unfoldable pub set_columns : Changes → DetailAttempt → DetailAttempt
set_columns c row = record row {
  state = c.state;
  consumption_state = c.consumption_state;
  started_at = c.started_at;
  completed_at = c.completed_at;
  worker_command_id = c.worker_command_id;
  raw_evidence_ref = c.raw_evidence_ref;
  updated_at = c.updated_at;
}

-- UPDATE … WHERE attempt_id = ?
unfoldable pub update_rows : Changes → String → List DetailAttempt → List DetailAttempt
update_rows c attempt_id [] = []
update_rows c attempt_id (row ∷ rows) =
    (if has_id attempt_id row then set_columns c row else row) ∷ update_rows c attempt_id rows

-- `count_detail_budget_consumed`
pub record BudgetKey : Type 0 where
  pub owner : Owner
  pub provider_account_hash : String
  pub provider_day_key : String

unfoldable pub spends : BudgetKey → DetailAttempt → Bool
unfolding counts_for_budget
spends key row =
    same_owner row.owner key.owner
    && (str_eq row.provider_account_hash key.provider_account_hash
        && (str_eq row.provider_day_key key.provider_day_key
            && counts_for_budget row.consumption_state))

unfoldable pub count_detail_budget_consumed : Ledger → BudgetKey → ℕ
count_detail_budget_consumed db key = length (select (spends key) db.attempts)
