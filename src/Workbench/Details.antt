-- ===== src/Workbench/Details.antt =====
-- The requests to open the details of Liepin candidates in workbench_store.py: their tables, which
-- stand beside the store of the runs. A row of the evidence carries the scope of its review item,
-- with which the store joins it. Texts of decisions and the security audit are left out.
pub mod Leases
pub mod Requests
pub mod Cards
pub mod Spending
pub mod Searches
pub mod Budget
mod Tests
use cv_match.Common.{ℕ, Bool, true, false, ◌&&◌, ◌==◌, Option, List, [], String, Result}
use cv_match.Common.Updates.{update_where}
use cv_match.Text.{Text}
use cv_match.Workbench.Tables.{RowId, SourceKind, Store, EventName}
use cv_match.Workbench.Events.{Scope, append_event}

pub data OpenMode : Type 0 where
  human_confirm bypass_confirm : OpenMode

pub data RequestStatus : Type 0 where
  pending request_approved rejected bypassed request_blocked request_expired : RequestStatus

pub data LeaseStatus : Type 0 where
  planned leased opened skipped lease_blocked lease_failed maybe_used : LeaseStatus

pub data EvidenceLevel : Type 0 where
  card detail final : EvidenceLevel

-- what a method raises, and the reasons for which a request is blocked
pub data DetailError : Type 0 where
  detail_open_not_required detail_not_connected detail_open_request_not_approvable : DetailError
  detail_open_request_not_rejectable detail_open_request_not_found : DetailError
  active_detail_open_lease detail_budget_exhausted detail_integrity : DetailError

pub record Evidence : Type 0 where
  pub evidence_id : RowId
  pub review_item_id : Text
  pub workspace_id : RowId
  pub user_id : RowId
  pub session_id : RowId
  pub source_run_id : RowId
  pub source_kind : SourceKind
  pub evidence_level : EvidenceLevel
  pub provider_candidate_key_hash : String
  pub created_at : ℕ

pub record Policy : Type 0 where
  pub session_id : RowId
  pub workspace_id : RowId
  pub user_id : RowId
  pub detail_open_mode : OpenMode
  pub updated_at : ℕ

-- `f"{session_id}:{key}"`, whose session id has no colon
abbrev pub DetailKey : Type 0
DetailKey = RowId × Text

pub record Request : Type 0 where
  pub request_id : RowId
  pub workspace_id : RowId
  pub user_id : RowId
  pub session_id : RowId
  pub source_run_id : RowId
  pub connection_id : RowId
  pub candidate_evidence_id : RowId
  pub review_item_id : Text
  pub provider_candidate_key_hash : String
  pub detail_open_mode : OpenMode
  pub status : RequestStatus
  pub idempotency_key : DetailKey
  pub blocked_reason : Option DetailError
  pub ledger_id : Option RowId
  pub decided_at : Option ℕ
  pub created_at : ℕ
  pub updated_at : ℕ

pub record LedgerRow : Type 0 where
  pub ledger_id : RowId
  pub workspace_id : RowId
  pub actor_id : RowId
  pub connection_id : RowId
  pub source_run_id : RowId
  pub request_id : RowId
  pub candidate_evidence_id : RowId
  pub provider_candidate_key_hash : String
  pub status : LeaseStatus
  pub budget_day : ℕ
  pub idempotency_key : DetailKey
  pub lease_expires_at : Option ℕ
  pub created_at : ℕ
  pub updated_at : ℕ

-- the attempt that a lease asks of the worker
pub record WriteIntent : Type 0 where
  pub workspace_id : RowId
  pub user_id : RowId
  pub session_id : RowId
  pub source_run_id : RowId
  pub ledger_id : RowId
  pub request_id : RowId
  pub idempotency_key : DetailKey
  pub created_at : ℕ
  pub updated_at : ℕ

pub record Desk : Type 0 where
  pub store : Store
  pub policies : List Policy
  pub evidence : List Evidence
  pub requests : List Request
  pub ledger : List LedgerRow
  pub intents : List WriteIntent

abbrev pub is_pending : RequestStatus → Bool
is_pending pending = true
is_pending _ = false

abbrev pub is_leased : LeaseStatus → Bool
is_leased leased = true
is_leased _ = false

-- the statuses that count towards the budget of a day
abbrev pub is_spent : LeaseStatus → Bool
is_spent leased = true
is_spent opened = true
is_spent maybe_used = true
is_spent _ = false

abbrev pub log : Scope → EventName → Desk → Desk
log scope event_name d = record d { store = append_event scope event_name d.store }

abbrev pub set_request : RowId → (Request → Request) → Desk → Desk
set_request request_id f d = record d {
  requests = update_where (λ request. request.request_id == request_id) f d.requests;
}
