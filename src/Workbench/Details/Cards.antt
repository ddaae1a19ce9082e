-- ===== src/Workbench/Details/Cards.antt =====
-- `complete_liepin_card_source_run_with_lane_result` with
-- `_persist_liepin_card_candidate_results_conn`: a Liepin card search ends its job, and asks for
-- the details of its best cards.
--
-- Left out: the rows of the review items, the events of candidates and of the lane, and the texts
-- that the cards are matched by; a card has the number of its matches.
use cv_match.Common.{
  ℕ, suc, ◌+◌, ◌*◌, min, Bool, ◌&&◌, ◌==◌, leb, ltb, Option, none, some, List, [], ◌∷◌, ◌++◌, ok,
  err, if◌then◌else◌, any, select, length, String, is_some,
}
use cv_match.Common.Updates.{update_where}
use cv_match.Common.Sorting.{sort_by}
use cv_match.Text.{Text}
use cv_match.Workbench.Tables.{
  RowId, liepin, User, Connection, SourceRun, Job, RunStatus, blocked, completed, failed, JobStatus,
  job_completed, job_failed, EventName, source_run_completed, source_run_failed, source_run_blocked,
  liepin_card_search_completed, liepin_detail_open_auto_recommended, Store, is_connected, job_runs,
}
use cv_match.Workbench.Events.{Scope, append_event}
use cv_match.Workbench.Sessions.{of_user}
use cv_match.Workbench.Jobs.{first, set_run, job_of}
use cv_match.Workbench.Jobs.Claims.{Context}
use cv_match.Workbench.Jobs.Endings.{Ending, finish_row}
use cv_match.Workbench.Details.{
  OpenMode, human_confirm, bypass_confirm, Evidence, card, Request, Desk, log, detail_integrity,
}
use cv_match.Workbench.Details.Leases.{same_detail_key, request_scope, lease_request}
use cv_match.Workbench.Details.Requests.{
  open_mode, detail_idempotency_key, DeskOutcome, desk_transaction, status_by, decided_by,
}

-- A text that is no other status counts as completed.
pub data LaneStatus : Type 0 where
  lane_completed lane_partial lane_blocked lane_failed lane_cancelled : LaneStatus

-- A candidate of the lane with a resume id, and the ids that `uuid4` draws for it.
pub record Card : Type 0 where
  pub review_item_id : Text
  pub evidence_id : RowId
  pub provider_key_hash : String
  pub must_have_matches : ℕ
  pub preference_matches : ℕ
  pub has_title : Bool
  pub has_long_summary : Bool
  pub is_recommended : Bool
  pub request_id : RowId
  pub ledger_id : RowId

pub record LaneResult : Type 0 where
  pub status : LaneStatus
  pub blocked_reason_code : Option String
  pub stop_reason_code : Option String
  pub raw_candidate_count : Option ℕ
  pub uses_runtime_recommendations : Bool
  pub cards : List Card

-- `_liepin_card_auto_detail_decision`
unfoldable pub auto_score : Card → ℕ
auto_score c = min 100 (
    (if leb 1 c.must_have_matches then 45 + min c.must_have_matches 3 * 12 else 0)
    + (min c.preference_matches 4 * 8
        + ((if c.has_title then 6 else 0) + (if c.has_long_summary then 5 else 0))))

abbrev pub auto_limit : ℕ
auto_limit = 5

abbrev pub auto_threshold : ℕ
auto_threshold = 55

abbrev pub context_user : Context → User
context_user context = record {
  user_id = context.session.user_id;
  workspace_id = context.session.workspace_id;
}

abbrev usable : Context → Connection → Bool
usable context connection =
    of_user (context_user context) connection.workspace_id connection.user_id
    && (is_connected connection.status && is_some connection.provider_account_hash)

-- `_connected_liepin_connection_for_owner_conn`
abbrev pub owner_connection : Context → Store → Option Connection
owner_connection context s =
    first (sort_by (λ x y. ltb y.updated_at x.updated_at) (select (usable context) s.connections))

abbrev pub should_request : Bool → ℕ → Card → Bool
should_request uses_runtime requested c =
    ltb requested auto_limit
    && (if uses_runtime then c.is_recommended else leb auto_threshold (auto_score c))

-- "auto-detail:"
abbrev auto_prefix : Text
auto_prefix = 97 ∷ 117 ∷ 116 ∷ 111 ∷ 45 ∷ 100 ∷ 101 ∷ 116 ∷ 97 ∷ 105 ∷ 108 ∷ 58 ∷ []

abbrev pub auto_request : Context → RowId → OpenMode → ℕ → Card → Request
auto_request context connection_id mode now c = record {
  request_id = c.request_id;
  workspace_id = context.session.workspace_id;
  user_id = context.session.user_id;
  session_id = context.session.session_id;
  source_run_id = context.job.source_run_id;
  connection_id = connection_id;
  candidate_evidence_id = c.evidence_id;
  review_item_id = c.review_item_id;
  provider_candidate_key_hash = c.provider_key_hash;
  detail_open_mode = mode;
  status = status_by mode;
  idempotency_key =
      detail_idempotency_key context.session.session_id c.review_item_id
        (some (auto_prefix ++ c.review_item_id));
  blocked_reason = none;
  ledger_id = none;
  decided_at = decided_by mode now;
  created_at = now;
  updated_at = now;
}

-- The lease of a request that needs no confirmation; the reason of a refusal is not looked at.
abbrev pub auto_lease : OpenMode → Card → ℕ → Desk → Desk
auto_lease human_confirm c now d = d
auto_lease bypass_confirm c now d = (lease_request c.request_id c.ledger_id now d).1

-- `_create_auto_liepin_detail_open_request_conn` and the lease behind it, with the number of the
-- requests so far
abbrev pub add_request : Request → Card → ℕ → ℕ → Desk → DeskOutcome ℕ
add_request new c now requested d =
    if any
      (λ request.
        of_user (record { user_id = new.user_id; workspace_id = new.workspace_id })
          request.workspace_id request.user_id
        && same_detail_key request.idempotency_key new.idempotency_key)
      d.requests
    then (ok requested, d)
    else (if any (λ request. request.request_id == new.request_id) d.requests
        then (err detail_integrity, d)
        else (
          ok (suc requested),
          auto_lease new.detail_open_mode c now (
              log (request_scope new) liepin_detail_open_auto_recommended
                (record d { requests = d.requests ++ new ∷ [] })),
        ))

abbrev card_evidence : Context → ℕ → Card → Evidence
card_evidence context now c = record {
  evidence_id = c.evidence_id;
  review_item_id = c.review_item_id;
  workspace_id = context.session.workspace_id;
  user_id = context.session.user_id;
  session_id = context.session.session_id;
  source_run_id = context.job.source_run_id;
  source_kind = liepin;
  evidence_level = card;
  provider_candidate_key_hash = c.provider_key_hash;
  created_at = now;
}

-- the INSERT … ON CONFLICT DO UPDATE of the evidence
abbrev pub upsert_evidence : Evidence → List Evidence → List Evidence
upsert_evidence new rows =
    if any (λ row. row.evidence_id == new.evidence_id) rows
    then update_where (λ row. row.evidence_id == new.evidence_id)
        (λ row. record row {
          review_item_id = new.review_item_id;
          provider_candidate_key_hash = new.provider_candidate_key_hash;
        })
        rows
    else rows ++ new ∷ []

abbrev pub see_card : Context → ℕ → Card → Desk → Desk
see_card context now c d = record d {
  evidence = upsert_evidence (card_evidence context now c) d.evidence;
}

abbrev pub persist_card :
    Context → Bool → OpenMode → Option Connection → ℕ → ℕ → Card → Desk → DeskOutcome ℕ
persist_card context uses_runtime mode none now requested c d =
    (ok requested, see_card context now c d)
persist_card context uses_runtime mode (some connection) now requested c d =
    if should_request uses_runtime requested c
    then add_request (auto_request context connection.connection_id mode now c) c now requested
        (see_card context now c d)
    else (ok requested, see_card context now c d)

-- the statements behind one that may raise
abbrev pub on_desk : {A B : Type 0} → DeskOutcome A → (A → Desk → DeskOutcome B) → DeskOutcome B
on_desk (ok a, d) f = f a d
on_desk (err e, d) f = (err e, d)

unfoldable pub persist_cards :
    Context → Bool → OpenMode → Option Connection → ℕ → ℕ → List Card → Desk → DeskOutcome ℕ
persist_cards context uses_runtime mode connection now requested [] d = (ok requested, d)
persist_cards context uses_runtime mode connection now requested (c ∷ cards) d =
    on_desk (persist_card context uses_runtime mode connection now requested c d)
      (λ n e. persist_cards context uses_runtime mode connection now n cards e)

abbrev pub lane_run_status : LaneStatus → RunStatus
lane_run_status lane_blocked = blocked
lane_run_status lane_failed = failed
lane_run_status lane_cancelled = failed
lane_run_status _ = completed

abbrev lane_job_status : LaneStatus → JobStatus
lane_job_status lane_blocked = job_failed
lane_job_status lane_failed = job_failed
lane_job_status lane_cancelled = job_failed
lane_job_status _ = job_completed

abbrev lane_event : LaneStatus → EventName
lane_event lane_blocked = source_run_blocked
lane_event lane_failed = source_run_failed
lane_event lane_cancelled = source_run_failed
lane_event _ = source_run_completed

abbrev or_text : Option String → String → String
or_text none default = default
or_text (some text) default = text

abbrev lane_warning : LaneResult → LaneStatus → Option String
lane_warning result lane_completed = none
lane_warning result lane_partial = some (or_text result.stop_reason_code "partial_timeout")
lane_warning result lane_blocked =
    some (or_text result.blocked_reason_code "blocked_backend_unavailable")
lane_warning result lane_failed = some "runtime_failed"
lane_warning result lane_cancelled = some "cancelled_by_user"

abbrev pub lane_ending : LaneResult → Ending
lane_ending result = record {
  job_status = lane_job_status result.status;
  run_status = lane_run_status result.status;
  warning_code = lane_warning result result.status;
  event_name = lane_event result.status;
}

abbrev scanned : Option ℕ → ℕ → ℕ
scanned none persisted = persisted
scanned (some count) persisted = count

abbrev pub count_lane : LaneResult → SourceRun → SourceRun
count_lane result run = record run {
  cards_scanned_count = scanned result.raw_candidate_count (length result.cards);
  unique_candidates_count = length result.cards;
  status = lane_run_status result.status;
  warning_code = lane_warning result result.status;
}

abbrev lane_scope : Context → Scope
lane_scope context = record {
  workspace_id = context.session.workspace_id;
  user_id = context.session.user_id;
  session_id = some context.session.session_id;
  source_run_id = some context.job.source_run_id;
  source_kind = some liepin;
}

-- what follows the cards
abbrev pub end_lane : LaneResult → ℕ → Context → Job → Store → Store
end_lane result now context row s = finish_row (lane_ending result) now row (
    append_event (lane_scope context) liepin_card_search_completed
      (set_run context.job.source_run_id (count_lane result) s))

-- The items that the cards are reviewed by; a job that does not run is left alone.
abbrev pub complete_lane_found :
    LaneResult → ℕ → Context → Desk → Option Job → DeskOutcome (List Text)
complete_lane_found result now context d none = (ok [], d)
complete_lane_found result now context d (some row) =
    if job_runs row.status
    then on_desk
        (persist_cards context result.uses_runtime_recommendations
          (open_mode (context_user context) context.session.session_id d)
          (owner_connection context d.store) now 0 result.cards d)
        (λ requested e. (
          ok (review_items result.cards),
          record e { store = end_lane result now context row e.store },
        ))
    else (ok [], d)
  where
    review_items : List Card → List Text
    review_items [] = []
    review_items (c ∷ cards) = c.review_item_id ∷ review_items cards

unfoldable pub complete_lane : LaneResult → ℕ → Context → Desk → DeskOutcome (List Text)
complete_lane result now context d =
    desk_transaction d
      (complete_lane_found result now context d (job_of context.job.job_id d.store))
