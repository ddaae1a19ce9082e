-- ===== src/Workbench/Tables.antt =====
-- The rows of workbench_store.py, its Literal types, and the transaction that a method opens.
use cv_match.Common.{ℕ, Bool, true, false, Option, List, [], String, Result, ok, err}
use cv_match.Text.{Text}

abbrev pub RowId : Type 0
RowId = ℕ

pub data SourceKind : Type 0 where
  cts liepin : SourceKind

pub data RunStatus : Type 0 where
  queued blocked running completed failed : RunStatus

pub data AuthState : Type 0 where
  not_required auth_login_required : AuthState

pub data JobStatus : Type 0 where
  job_queued job_running job_completed job_failed : JobStatus

pub data ConnectionStatus : Type 0 where
  login_required login_in_progress verification_required connected : ConnectionStatus
  expired connection_blocked disconnected : ConnectionStatus

pub data TriageStatus : Type 0 where
  draft approved : TriageStatus

pub data EventName : Type 0 where
  session_created requirement_triage_updated requirement_triage_approved : EventName
  source_run_queued source_run_started source_run_completed source_run_failed : EventName
  source_run_blocked cts_runtime_completed source_connection_status_changed : EventName
  liepin_detail_policy_updated liepin_detail_open_requested : EventName
  liepin_detail_open_rejected liepin_detail_open_leased : EventName
  liepin_detail_open_blocked liepin_detail_open_lease_expired : EventName
  liepin_card_search_completed liepin_detail_open_auto_recommended : EventName

pub record User : Type 0 where
  pub user_id : RowId
  pub workspace_id : RowId

pub record Session : Type 0 where
  pub session_id : RowId
  pub workspace_id : RowId
  pub user_id : RowId

pub record Criteria : Type 0 where
  pub must_haves : List String
  pub nice_to_haves : List String
  pub synonyms : List String
  pub seniority_filters : List String
  pub exclusions : List String
  pub generated_query_hints : List String

pub record Triage : Type 0 where
  pub session_id : RowId
  pub workspace_id : RowId
  pub user_id : RowId
  pub status : TriageStatus
  pub criteria : Criteria
  pub updated_at : ℕ
  pub approved_at : Option ℕ

pub record Connection : Type 0 where
  pub connection_id : RowId
  pub workspace_id : RowId
  pub user_id : RowId
  pub status : ConnectionStatus
  pub warning_code : Option String
  pub provider_account_hash : Option String
  pub compliance_gate_ref : Option String
  pub updated_at : ℕ
  pub connected_at : Option ℕ

pub record SourceRun : Type 0 where
  pub source_run_id : RowId
  pub session_id : RowId
  pub workspace_id : RowId
  pub user_id : RowId
  pub source_kind : SourceKind
  pub status : RunStatus
  pub auth_state : AuthState
  pub warning_code : Option String
  pub runtime_run_id : Option Text
  pub cards_scanned_count : ℕ
  pub unique_candidates_count : ℕ
  pub detail_open_used_count : ℕ
  pub detail_open_blocked_count : ℕ
  pub created_at : ℕ

pub record Job : Type 0 where
  pub job_id : RowId
  pub workspace_id : RowId
  pub user_id : RowId
  pub session_id : RowId
  pub source_run_id : RowId
  pub source_kind : SourceKind
  pub status : JobStatus
  pub lease_owner : Option RowId
  pub lease_expires_at : Option ℕ
  pub idempotency_key : Option Text
  pub attempt_count : ℕ
  pub created_at : ℕ
  pub updated_at : ℕ

pub record Event : Type 0 where
  pub workspace_id : RowId
  pub user_id : RowId
  pub session_id : Option RowId
  pub session_seq : Option ℕ
  pub source_run_id : Option RowId
  pub source_kind : Option SourceKind
  pub event_name : EventName

pub record Store : Type 0 where
  pub sessions : List Session
  pub triages : List Triage
  pub connections : List Connection
  pub runs : List SourceRun
  pub jobs : List Job
  pub events : List Event

-- what a method raises
pub data StoreError : Type 0 where
  integrity key_error : StoreError
  liepin_connection_not_connected requirement_triage_not_approved : StoreError
  requirement_triage_empty source_run_already_terminal : StoreError
  runtime_run_id_required cts_source_run_not_found runtime_run_id_conflict : StoreError

-- A value or an exception, and the rows as they are then.
abbrev pub Outcome : Type 0 → Type 0
Outcome A = Result StoreError A × Store

-- `with self._connect() as conn`: sqlite3 commits, or rolls back when an exception leaves the block.
abbrev pub transaction : {A : Type 0} → Store → Outcome A → Outcome A
transaction s (ok a, t) = (ok a, t)
transaction s (err e, t) = (err e, s)

-- the statements behind one that may raise
abbrev pub proceed : {A B : Type 0} → Outcome A → (A → Store → Outcome B) → Outcome B
proceed (ok a, s) f = f a s
proceed (err e, s) f = (err e, s)

abbrev pub is_cts : SourceKind → Bool
is_cts cts = true
is_cts liepin = false

abbrev pub is_liepin : SourceKind → Bool
is_liepin cts = false
is_liepin liepin = true

abbrev pub same_kind : SourceKind → SourceKind → Bool
same_kind cts kind = is_cts kind
same_kind liepin kind = is_liepin kind

abbrev pub is_queued : RunStatus → Bool
is_queued queued = true
is_queued _ = false

abbrev pub is_blocked : RunStatus → Bool
is_blocked blocked = true
is_blocked _ = false

abbrev pub is_running : RunStatus → Bool
is_running running = true
is_running _ = false

abbrev pub is_terminal : RunStatus → Bool
is_terminal completed = true
is_terminal failed = true
is_terminal _ = false

abbrev pub needs_login : AuthState → Bool
needs_login not_required = false
needs_login auth_login_required = true

abbrev pub job_waits : JobStatus → Bool
job_waits job_queued = true
job_waits _ = false

abbrev pub job_runs : JobStatus → Bool
job_runs job_running = true
job_runs _ = false

abbrev pub is_active : JobStatus → Bool
is_active job_queued = true
is_active job_running = true
is_active _ = false

abbrev pub is_connected : ConnectionStatus → Bool
is_connected connected = true
is_connected _ = false

abbrev pub is_approved : TriageStatus → Bool
is_approved draft = false
is_approved approved = true

abbrev pub run_key : SourceRun → RowId
run_key run = run.source_run_id

abbrev pub job_key : Job → RowId
job_key job = job.job_id

abbrev pub empty_store : Store
empty_store = record {
  sessions = [];
  triages = [];
  connections = [];
  runs = [];
  jobs = [];
  events = [];
}
