-- ===== src/Workbench/Details/Leases.antt =====
-- `_lease_liepin_detail_open_request_conn`, `_block_detail_open_request_conn`,
-- `_queue_external_write_intent_conn` and `reconcile_expired_detail_open_leases`. A day is 86,400
-- seconds of UTC.
use cv_match.Common.{
  ℕ, suc, ◌+◌, ◌/◌, Bool, false, ◌&&◌, ◌||◌, ◌==◌, ltb, leb, Option, none, some, List, [], ◌∷◌,
  ◌++◌, if◌then◌else◌, any, find, select,
}
use cv_match.Common.Updates.{update_where, count}
use cv_match.Common.Sorting.{sort_by, then_by}
use cv_match.Text.{text_eq}
use cv_match.Workbench.Tables.{
  RowId, liepin, SourceRun, liepin_detail_open_leased, liepin_detail_open_blocked,
  liepin_detail_open_lease_expired,
}
use cv_match.Workbench.Events.{Scope}
use cv_match.Workbench.Jobs.{set_run}
use cv_match.Workbench.Details.{
  DetailError, detail_open_request_not_found, active_detail_open_lease, detail_budget_exhausted,
  DetailKey, Request, request_blocked, LedgerRow, leased, maybe_used, WriteIntent, Desk, is_leased,
  is_spent, log, set_request,
}

-- `LIEPIN_DAILY_DETAIL_OPEN_LIMIT` and `DETAIL_OPEN_LEASE_SECONDS`
abbrev pub daily_limit : ℕ
daily_limit = 100

abbrev pub lease_seconds : ℕ
lease_seconds = 600

unfoldable pub budget_day_of : ℕ → ℕ
budget_day_of now = now / 86400

abbrev pub same_detail_key : DetailKey → DetailKey → Bool
same_detail_key (i, s) (j, t) = i == j && text_eq s t

abbrev pub request_scope : Request → Scope
request_scope row = record {
  workspace_id = row.workspace_id;
  user_id = row.user_id;
  session_id = some row.session_id;
  source_run_id = some row.source_run_id;
  source_kind = some liepin;
}

abbrev pub set_detail_run : RowId → (SourceRun → SourceRun) → Desk → Desk
set_detail_run source_run_id f d = record d { store = set_run source_run_id f d.store }

abbrev pub count_blocked : SourceRun → SourceRun
count_blocked run = record run { detail_open_blocked_count = suc run.detail_open_blocked_count }

abbrev pub count_used : SourceRun → SourceRun
count_used run = record run { detail_open_used_count = suc run.detail_open_used_count }

abbrev block : DetailError → ℕ → Request → Request
block reason now request = record request {
  status = request_blocked;
  blocked_reason = some reason;
  updated_at = now;
}

-- `_block_detail_open_request_conn`
unfoldable pub block_request : Request → DetailError → ℕ → Desk → Desk
block_request row reason now d = log (request_scope row) liepin_detail_open_blocked (
    set_detail_run row.source_run_id count_blocked
      (set_request row.request_id (block reason now) d))

abbrev pub holds_lease : RowId → ℕ → LedgerRow → Bool
holds_lease connection_id now row =
    row.connection_id == connection_id
    && (is_leased row.status && (elim row.lease_expires_at [ none ↦ false | some t ↦ ltb now t ]))

abbrev pub spends_on : RowId → ℕ → LedgerRow → Bool
spends_on connection_id day row =
    row.connection_id == connection_id && (row.budget_day == day && is_spent row.status)

abbrev pub leased_on : RowId → LedgerRow → Bool
leased_on connection_id row = row.connection_id == connection_id && is_leased row.status

abbrev pub new_ledger_row : Request → RowId → ℕ → LedgerRow
new_ledger_row row ledger_id now = record {
  ledger_id = ledger_id;
  workspace_id = row.workspace_id;
  actor_id = row.user_id;
  connection_id = row.connection_id;
  source_run_id = row.source_run_id;
  request_id = row.request_id;
  candidate_evidence_id = row.candidate_evidence_id;
  provider_candidate_key_hash = row.provider_candidate_key_hash;
  status = leased;
  budget_day = budget_day_of now;
  idempotency_key = row.idempotency_key;
  lease_expires_at = some (now + lease_seconds);
  created_at = now;
  updated_at = now;
}

-- The primary key and the two unique indexes of the ledger.
abbrev pub violates : LedgerRow → LedgerRow → Bool
violates new row =
    row.ledger_id == new.ledger_id
    || ((row.workspace_id == new.workspace_id
          && (row.actor_id == new.actor_id
              && same_detail_key row.idempotency_key new.idempotency_key))
        || leased_on new.connection_id row)

abbrev same_intent : WriteIntent → WriteIntent → Bool
same_intent x y =
    x.workspace_id == y.workspace_id
    && (x.user_id == y.user_id && same_detail_key x.idempotency_key y.idempotency_key)

-- the INSERT … ON CONFLICT DO UPDATE of an intent
unfoldable pub queue_intent : WriteIntent → List WriteIntent → List WriteIntent
queue_intent new intents =
    if any (same_intent new) intents
    then update_where (same_intent new) (λ intent. record intent { updated_at = new.updated_at })
        intents
    else intents ++ new ∷ []

abbrev new_intent : Request → RowId → ℕ → WriteIntent
new_intent row ledger_id now = record {
  workspace_id = row.workspace_id;
  user_id = row.user_id;
  session_id = row.session_id;
  source_run_id = row.source_run_id;
  ledger_id = ledger_id;
  request_id = row.request_id;
  idempotency_key = row.idempotency_key;
  created_at = now;
  updated_at = now;
}

abbrev attach_ledger : RowId → ℕ → Request → Request
attach_ledger ledger_id now request = record request {
  ledger_id = some ledger_id;
  blocked_reason = none;
  updated_at = now;
}

abbrev pub grant_lease : Request → RowId → ℕ → Desk → Desk
grant_lease row ledger_id now d = log (request_scope row) liepin_detail_open_leased queued
  where
    counted : Desk
    counted = set_detail_run row.source_run_id count_used (
        set_request row.request_id (attach_ledger ledger_id now)
          (record d { ledger = d.ledger ++ new_ledger_row row ledger_id now ∷ [] }))

    queued : Desk
    queued = record counted {
      intents = queue_intent (new_intent row ledger_id now) counted.intents;
    }

abbrev pub refuse_lease : Request → DetailError → ℕ → Desk → Option DetailError × Desk
refuse_lease row reason now d = (some reason, block_request row reason now d)

abbrev pub lease_found : RowId → ℕ → Desk → Option Request → Option DetailError × Desk
lease_found ledger_id now d none = (some detail_open_request_not_found, d)
lease_found ledger_id now d (some row) =
    if any (holds_lease row.connection_id now) d.ledger
    then refuse_lease row active_detail_open_lease now d
    else if leb daily_limit (count (spends_on row.connection_id (budget_day_of now)) d.ledger)
    then refuse_lease row detail_budget_exhausted now d
    else if any (violates (new_ledger_row row ledger_id now)) d.ledger
    then refuse_lease row active_detail_open_lease now d
    else (none, grant_lease row ledger_id now d)

-- `_lease_liepin_detail_open_request_conn`: nothing, or the reason for which it blocked the request.
unfoldable pub lease_request : RowId → RowId → ℕ → Desk → Option DetailError × Desk
lease_request request_id ledger_id now d =
    lease_found ledger_id now d (find (λ request. request.request_id == request_id) d.requests)

abbrev pub lease_over : ℕ → List Request → LedgerRow → Bool
lease_over now requests row =
    is_leased row.status
    && ((elim row.lease_expires_at [ none ↦ false | some t ↦ leb t now ])
        && any (λ request. request.request_id == row.request_id) requests)

abbrev time_of : Option ℕ → ℕ
time_of none = 0
time_of (some t) = t

-- the lease times of the selected rows are all given
abbrev pub lapses_before : LedgerRow → LedgerRow → Bool
lapses_before x y =
    then_by (time_of x.lease_expires_at) (time_of y.lease_expires_at) (ltb x.ledger_id y.ledger_id)

abbrev pub lapse : ℕ → LedgerRow → LedgerRow
lapse now row = record row { status = maybe_used; updated_at = now }

abbrev pub set_ledger : (LedgerRow → Bool) → (LedgerRow → LedgerRow) → Desk → Desk
set_ledger p f d = record d { ledger = update_where p f d.ledger }

abbrev session_of_request : RowId → List Request → Option RowId
session_of_request request_id [] = none
session_of_request request_id (request ∷ requests) =
    if request.request_id == request_id
    then some request.session_id
    else session_of_request request_id requests

abbrev lapse_scope : LedgerRow → Desk → Scope
lapse_scope row d = record {
  workspace_id = row.workspace_id;
  user_id = row.actor_id;
  session_id = session_of_request row.request_id d.requests;
  source_run_id = some row.source_run_id;
  source_kind = some liepin;
}

abbrev pub lapse_row : ℕ → LedgerRow → Desk → Desk
lapse_row now row d =
    log (lapse_scope row d) liepin_detail_open_lease_expired (
      set_ledger (λ other. other.ledger_id == row.ledger_id && is_leased other.status) (lapse now)
        d)

unfoldable pub lapse_rows : ℕ → List LedgerRow → Desk → Desk
lapse_rows now [] d = d
lapse_rows now (row ∷ rows) d = lapse_rows now rows (lapse_row now row d)

unfoldable pub reconcile_detail_leases : ℕ → Desk → Desk
reconcile_detail_leases now d =
    lapse_rows now (sort_by lapses_before (select (lease_over now d.requests) d.ledger)) d
