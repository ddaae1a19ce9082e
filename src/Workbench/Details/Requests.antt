-- ===== src/Workbench/Details/Requests.antt =====
-- `update_liepin_source_run_policy`, `create_liepin_detail_open_request`,
-- `approve_liepin_detail_open_request` and `reject_liepin_detail_open_request`.
use cv_match.Common.{
  ℕ, Bool, true, false, not, ◌&&◌, ◌==◌, ltb, Option, none, some, List, [], ◌∷◌, ◌++◌, Result, ok,
  err, if◌then◌else◌, any, find, select, String, str_eq,
}
use cv_match.Common.Updates.{update_where}
use cv_match.Common.Sorting.{sort_by, then_by}
use cv_match.Text.{Text, text_eq, is_blank}
use cv_match.Workbench.Tables.{
  RowId, liepin, User, Connection, is_liepin, is_connected, liepin_detail_policy_updated,
  liepin_detail_open_requested, liepin_detail_open_rejected,
}
use cv_match.Workbench.Events.{Scope}
use cv_match.Workbench.Sessions.{of_user, session_exists_for_user}
use cv_match.Workbench.Jobs.{connection_for_user, first}
use cv_match.Workbench.Jobs.Starts.{bounded_text}
use cv_match.Workbench.Details.{
  OpenMode, human_confirm, bypass_confirm, RequestStatus, pending, request_approved, rejected,
  bypassed, EvidenceLevel, card, detail, final, DetailError, detail_open_not_required,
  detail_not_connected, detail_open_request_not_approvable, detail_open_request_not_rejectable,
  detail_integrity, Evidence, Policy, DetailKey, Request, Desk, is_pending, log, set_request,
}
use cv_match.Workbench.Details.Leases.{
  same_detail_key, request_scope, lease_request, reconcile_detail_leases,
}

abbrev policy_scope : User → RowId → Scope
policy_scope user session_id = record {
  workspace_id = user.workspace_id;
  user_id = user.user_id;
  session_id = some session_id;
  source_run_id = none;
  source_kind = some liepin;
}

abbrev pub set_policy : Policy → List Policy → List Policy
set_policy new policies =
    if any (λ policy. policy.session_id == new.session_id) policies
    then update_where (λ policy. policy.session_id == new.session_id)
        (λ policy. record policy {
          detail_open_mode = new.detail_open_mode;
          updated_at = new.updated_at;
        })
        policies
    else policies ++ new ∷ []

unfoldable pub update_source_run_policy : User → RowId → OpenMode → ℕ → Desk → Bool × Desk
update_source_run_policy user session_id mode now d =
    if session_exists_for_user user session_id d.store
    then (
      true,
      log (policy_scope user session_id) liepin_detail_policy_updated
          (record d { policies = set_policy policy d.policies }),
    )
    else (false, d)
  where
    policy : Policy
    policy = record {
      session_id = session_id;
      workspace_id = user.workspace_id;
      user_id = user.user_id;
      detail_open_mode = mode;
      updated_at = now;
    }

abbrev mode_of : Option Policy → OpenMode
mode_of none = human_confirm
mode_of (some policy) = policy.detail_open_mode

abbrev pub open_mode : User → RowId → Desk → OpenMode
open_mode user session_id d = mode_of (
    find
      (λ policy. policy.session_id == session_id && of_user user policy.workspace_id policy.user_id)
      d.policies)

-- `_detail_idempotency_key`
unfoldable pub detail_idempotency_key : RowId → Text → Option Text → DetailKey
unfolding bounded_text
detail_idempotency_key session_id review_item_id key = (session_id, explicit (bounded_text key 128))
  where
    explicit : Option Text → Text
    explicit none = review_item_id
    explicit (some k) = if is_blank k then review_item_id else k

abbrev level_rank : EvidenceLevel → ℕ
level_rank detail = 0
level_rank card = 1
level_rank final = 2

abbrev better_target : Evidence → Evidence → Bool
better_target x y =
    then_by (level_rank x.evidence_level) (level_rank y.evidence_level)
      (then_by y.created_at x.created_at (ltb x.evidence_id y.evidence_id))

-- `_liepin_review_target_conn`
unfoldable pub review_target : User → RowId → Text → Desk → Option Evidence
review_target user session_id review_item_id d = first (
    sort_by better_target (
      select
        (λ row.
          of_user user row.workspace_id row.user_id
          && (row.session_id == session_id
              && (text_eq row.review_item_id review_item_id && is_liepin row.source_kind)))
        d.evidence))

abbrev with_account : Option String → Bool
with_account none = false
with_account (some hash) = not (str_eq hash "")

-- `_connected_liepin_connection_conn`
abbrev pub connected_of : Option Connection → Option Connection
connected_of none = none
connected_of (some connection) =
    if is_connected connection.status && with_account connection.provider_account_hash
    then some connection
    else none

abbrev pub DeskOutcome : Type 0 → Type 0
DeskOutcome A = Result DetailError A × Desk

-- `with self._connect() as conn`, on the tables of the desk
abbrev pub desk_transaction : {A : Type 0} → Desk → DeskOutcome A → DeskOutcome A
desk_transaction d (ok a, e) = (ok a, e)
desk_transaction d (err x, e) = (err x, d)

-- The reason is raised behind the transaction, which has committed the blocked request.
abbrev pub raise_blocked : {A : Type 0} → DeskOutcome (A × Option DetailError) → DeskOutcome A
raise_blocked (ok (a, none), d) = (ok a, d)
raise_blocked (ok (a, some reason), d) = (err reason, d)
raise_blocked (err x, d) = (err x, d)

-- the arguments of a request, the ids that `uuid4` draws, and the clock
pub record Ask : Type 0 where
  pub user : User
  pub session_id : RowId
  pub review_item_id : Text
  pub idempotency_key : Option Text
  pub request_id : RowId
  pub ledger_id : RowId
  pub now : ℕ

abbrev pub status_by : OpenMode → RequestStatus
status_by human_confirm = pending
status_by bypass_confirm = bypassed

abbrev pub decided_by : OpenMode → ℕ → Option ℕ
decided_by human_confirm now = none
decided_by bypass_confirm now = some now

abbrev pub ask_key : Ask → DetailKey
ask_key ask = detail_idempotency_key ask.session_id ask.review_item_id ask.idempotency_key

abbrev pub new_request : Ask → Evidence → Connection → OpenMode → Request
new_request ask target connection mode = record {
  request_id = ask.request_id;
  workspace_id = ask.user.workspace_id;
  user_id = ask.user.user_id;
  session_id = ask.session_id;
  source_run_id = target.source_run_id;
  connection_id = connection.connection_id;
  candidate_evidence_id = target.evidence_id;
  review_item_id = ask.review_item_id;
  provider_candidate_key_hash = target.provider_candidate_key_hash;
  detail_open_mode = mode;
  status = status_by mode;
  idempotency_key = ask_key ask;
  blocked_reason = none;
  ledger_id = none;
  decided_at = decided_by mode ask.now;
  created_at = ask.now;
  updated_at = ask.now;
}

abbrev pub Asked : Type 0
Asked = Option Request × Option DetailError

abbrev pub request_of : RowId → Desk → Option Request
request_of request_id d = find (λ request. request.request_id == request_id) d.requests

-- the lease that follows a decision, and the request as it is then
abbrev pub leased_after : RowId → RowId → ℕ → Desk → DeskOutcome Asked
leased_after request_id ledger_id now d =
    let (reason, e) = lease_request request_id ledger_id now d in
    (ok (request_of request_id e, reason), e)

abbrev pub lease_by : OpenMode → Ask → Desk → DeskOutcome Asked
lease_by human_confirm ask d = (ok (request_of ask.request_id d, none), d)
lease_by bypass_confirm ask d = leased_after ask.request_id ask.ledger_id ask.now d

abbrev pub insert_request : Ask → Request → Desk → DeskOutcome Asked
insert_request ask new d =
    if any (λ request. request.request_id == ask.request_id) d.requests
    then (err detail_integrity, d)
    else lease_by new.detail_open_mode ask (
        log (request_scope new) liepin_detail_open_requested
          (record d { requests = d.requests ++ new ∷ [] }))

abbrev pub create_connected : Ask → Evidence → Desk → Option Connection → DeskOutcome Asked
create_connected ask target d none = (err detail_not_connected, d)
create_connected ask target d (some connection) =
    insert_request ask (new_request ask target connection (open_mode ask.user ask.session_id d)) d

abbrev pub create_new : Ask → Evidence → Desk → Option Request → DeskOutcome Asked
create_new ask target d (some request) = (ok (some request, none), d)
create_new ask target d none =
    create_connected ask target d (connected_of (connection_for_user ask.user d.store))

abbrev pub is_detail : EvidenceLevel → Bool
is_detail detail = true
is_detail _ = false

abbrev pub create_target : Ask → Desk → Option Evidence → DeskOutcome Asked
create_target ask d none = (ok (none, none), d)
create_target ask d (some target) =
    if is_detail target.evidence_level
    then (err detail_open_not_required, d)
    else create_new ask target d (
        find
          (λ request.
            of_user ask.user request.workspace_id request.user_id
            && same_detail_key request.idempotency_key (ask_key ask))
          d.requests)

unfoldable pub create_in_transaction : Ask → Desk → DeskOutcome (Option Request)
create_in_transaction ask d = raise_blocked (
    desk_transaction d
      (create_target ask d (review_target ask.user ask.session_id ask.review_item_id d)))

-- `create_liepin_detail_open_request`, which reconciles the leases first
unfoldable pub create_detail_open_request : ℕ → Ask → Desk → DeskOutcome (Option Request)
create_detail_open_request reconciled_at ask d =
    create_in_transaction ask (reconcile_detail_leases reconciled_at d)

abbrev pub owned_request : User → RowId → Desk → Option Request
owned_request user request_id d =
    find
      (λ request.
        of_user user request.workspace_id request.user_id && request.request_id == request_id)
      d.requests

abbrev approve : ℕ → Request → Request
approve now request = record request {
  status = request_approved;
  decided_at = some now;
  updated_at = now;
}

abbrev pub approve_row : RowId → RowId → ℕ → Desk → Option Request → DeskOutcome Asked
approve_row request_id ledger_id now d none = (ok (none, none), d)
approve_row request_id ledger_id now d (some row) =
    if is_pending row.status
    then leased_after request_id ledger_id now (set_request request_id (approve now) d)
    else (err detail_open_request_not_approvable, d)

unfoldable pub approve_in_transaction :
    User → RowId → RowId → ℕ → Desk → DeskOutcome (Option Request)
approve_in_transaction user request_id ledger_id now d =
    raise_blocked (
      desk_transaction d (approve_row request_id ledger_id now d (owned_request user request_id d)))

-- `approve_liepin_detail_open_request`, which reconciles the leases first
unfoldable pub approve_detail_open_request :
    ℕ → User → RowId → RowId → ℕ → Desk → DeskOutcome (Option Request)
approve_detail_open_request reconciled_at user request_id ledger_id now d =
    approve_in_transaction user request_id ledger_id now (reconcile_detail_leases reconciled_at d)

abbrev reject : ℕ → Request → Request
reject now request = record request { status = rejected; decided_at = some now; updated_at = now }

abbrev pub reject_row : RowId → ℕ → Desk → Option Request → DeskOutcome (Option Request)
reject_row request_id now d none = (ok none, d)
reject_row request_id now d (some row) =
    if is_pending row.status
    then (ok (request_of request_id changed), changed)
    else (err detail_open_request_not_rejectable, d)
  where
    changed : Desk
    changed =
        log (request_scope row) liepin_detail_open_rejected (set_request request_id (reject now) d)

-- `reject_liepin_detail_open_request`
unfoldable pub reject_detail_open_request : User → RowId → ℕ → Desk → DeskOutcome (Option Request)
reject_detail_open_request user request_id now d =
    desk_transaction d (reject_row request_id now d (owned_request user request_id d))
