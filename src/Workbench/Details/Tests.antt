-- ===== src/Workbench/Details/Tests.antt =====
-- A desk with one connected user, who asks for two details.
use cv_match.Common.{ℕ, none, some, List, [], ◌∷◌, err, ◌≡◌, refl, true, false, map}
use cv_match.Common.Sorting.{sort_by, insert_sorted}
use cv_match.Text.{Text, strip, lstrip, rstrip, is_space}
use cv_match.Workbench.Tables.{
  User, Connection, connected, liepin, empty_store, Job, job_running, approved, job_failed,
}
use cv_match.Workbench.Events.{append_event}
use cv_match.Workbench.Jobs.Starts.{bounded_text}
use cv_match.Workbench.Details.{
  Evidence, card, Desk, LedgerRow, LeaseStatus, leased, maybe_used, active_detail_open_lease,
  bypass_confirm,
}
use cv_match.Workbench.Details.Leases.{
  lease_request, block_request, queue_intent, reconcile_detail_leases, lapse_rows, budget_day_of,
}
use cv_match.Workbench.Details.Requests.{
  Ask, create_detail_open_request, create_in_transaction, approve_detail_open_request,
  approve_in_transaction, review_target, detail_idempotency_key,
}
use cv_match.Workbench.Details.Spending.{IsBudgeted}
use cv_match.Workbench.Details.Budget.{DeskReach-IsBudgeted, here, next, asks, approves}
use cv_match.Workbench.Details.Cards.{
  Card, LaneResult, complete_lane, lane_blocked, persist_cards, auto_score,
}
use cv_match.Workbench.Jobs.Claims.{Context}
use cv_match.Workbench.Jobs.Endings.{finish_row}

abbrev sourcer : User
sourcer = record { user_id = 1; workspace_id = 2 }

abbrev linked_account : Connection
linked_account = record {
  connection_id = 7;
  workspace_id = 2;
  user_id = 1;
  status = connected;
  warning_code = none;
  provider_account_hash = some "hash";
  compliance_gate_ref = none;
  updated_at = 0;
  connected_at = some 0;
}

abbrev first_item : Text
first_item = 97 ∷ []

abbrev second_item : Text
second_item = 98 ∷ []

abbrev seen_card : ℕ → Text → Evidence
seen_card id item = record {
  evidence_id = id;
  review_item_id = item;
  workspace_id = 2;
  user_id = 1;
  session_id = 10;
  source_run_id = 20;
  source_kind = liepin;
  evidence_level = card;
  provider_candidate_key_hash = "key";
  created_at = 5;
}

abbrev desk : Desk
desk = record {
  store = record empty_store { connections = linked_account ∷ [] };
  policies = [];
  evidence = seen_card 40 first_item ∷ seen_card 41 second_item ∷ [];
  requests = [];
  ledger = [];
  intents = [];
}

abbrev ask_for : ℕ → Text → Ask
ask_for id item = record {
  user = sourcer;
  session_id = 10;
  review_item_id = item;
  idempotency_key = none;
  request_id = id;
  ledger_id = id;
  now = 100;
}

abbrev asked : Desk
asked =
    (create_detail_open_request 100 (ask_for 51 second_item)
      (create_detail_open_request 100 (ask_for 50 first_item) desk).1).1

abbrev approved_once : Desk
approved_once = (approve_detail_open_request 200 sourcer 50 60 200 asked).1

abbrev lease_statuses : List LedgerRow → List LeaseStatus
lease_statuses [] = []
lease_statuses (row ∷ rows) = row.status ∷ lease_statuses rows

leased_first : lease_statuses approved_once.ledger ≡ leased ∷ []
unfolding create_detail_open_request create_in_transaction approve_detail_open_request
    approve_in_transaction review_target detail_idempotency_key bounded_text lease_request
    queue_intent reconcile_detail_leases lapse_rows append_event sort_by insert_sorted budget_day_of
leased_first = refl

-- While the lease is open, the second request is refused, and is blocked for good.
second_refused :
    (approve_detail_open_request 300 sourcer 51 61 300 approved_once).0
    ≡ err active_detail_open_lease
unfolding create_detail_open_request create_in_transaction approve_detail_open_request
    approve_in_transaction review_target detail_idempotency_key bounded_text lease_request
    queue_intent reconcile_detail_leases lapse_rows append_event sort_by insert_sorted budget_day_of
    block_request
second_refused = refl

-- When the lease has lapsed, the detail may have been used.
lapsed : lease_statuses (reconcile_detail_leases 800 approved_once).ledger ≡ maybe_used ∷ []
unfolding create_detail_open_request create_in_transaction approve_detail_open_request
    approve_in_transaction review_target detail_idempotency_key bounded_text lease_request
    queue_intent reconcile_detail_leases lapse_rows append_event sort_by insert_sorted budget_day_of
lapsed = refl

DeskReach-IsBudgeted_example : IsBudgeted approved_once
DeskReach-IsBudgeted_example = DeskReach-IsBudgeted refl (
    next (next (next here (asks 100 (ask_for 50 first_item))) (asks 100 (ask_for 51 second_item)))
      (approves 200 sourcer 50 60 200))

-- A card search whose session needs no confirmation leases the details of its best card at once;
-- the next one is refused while that lease is open.
abbrev good_card : ℕ → Text → Card
good_card id item = record {
  review_item_id = item;
  evidence_id = id;
  provider_key_hash = "key";
  must_have_matches = 1;
  preference_matches = 0;
  has_title = true;
  has_long_summary = false;
  is_recommended = false;
  request_id = id;
  ledger_id = id;
}

abbrev lane : LaneResult
lane = record {
  status = lane_blocked;
  blocked_reason_code = none;
  stop_reason_code = none;
  raw_candidate_count = none;
  uses_runtime_recommendations = false;
  cards = good_card 70 first_item ∷ good_card 71 second_item ∷ [];
}

abbrev search_job : Job
search_job = record {
  job_id = 30;
  workspace_id = 2;
  user_id = 1;
  session_id = 10;
  source_run_id = 20;
  source_kind = liepin;
  status = job_running;
  lease_owner = none;
  lease_expires_at = none;
  idempotency_key = none;
  attempt_count = 1;
  created_at = 1;
  updated_at = 1;
}

abbrev search_context : Context
search_context = record {
  job = search_job;
  session = record { session_id = 10; workspace_id = 2; user_id = 1 };
  triage = record {
    session_id = 10;
    workspace_id = 2;
    user_id = 1;
    status = approved;
    criteria = record {
      must_haves = [];
      nice_to_haves = [];
      synonyms = [];
      seniority_filters = [];
      exclusions = [];
      generated_query_hints = [];
    };
    updated_at = 1;
    approved_at = none;
  };
}

abbrev searched : Desk
searched =
    (complete_lane lane 400 search_context (record desk {
      store = record desk.store { jobs = search_job ∷ [] };
      policies =
          record {
            session_id = 10;
            workspace_id = 2;
            user_id = 1;
            detail_open_mode = bypass_confirm;
            updated_at = 1;
          }
          ∷ [];
    })).1

one_lease : lease_statuses searched.ledger ≡ leased ∷ []
unfolding complete_lane persist_cards auto_score detail_idempotency_key bounded_text lease_request
    block_request queue_intent append_event sort_by insert_sorted budget_day_of finish_row strip
    lstrip rstrip is_space
one_lease = refl

job_failed_then : map (λ (job : Job). job.status) searched.store.jobs ≡ job_failed ∷ []
unfolding complete_lane persist_cards auto_score detail_idempotency_key bounded_text lease_request
    block_request queue_intent append_event sort_by insert_sorted budget_day_of finish_row strip
    lstrip rstrip is_space
job_failed_then = refl
