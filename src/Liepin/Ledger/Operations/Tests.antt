-- ===== src/Liepin/Ledger/Operations/Tests.antt =====
-- A run of the ledger: a reservation, its start, and the worker's response that completes it.
use cv_match.Liepin.Ledger.Tables.{
  Owner, BudgetKey, DetailAttempt, WorkerResponse, Ledger, count_detail_budget_consumed,
  fetch_attempt, fetch_attempt_by_key, fetch_response, insert_attempt, insert_response, set_columns,
  update_rows, spends,
}
use cv_match.Liepin.Ledger.Operations.{
  Reservation, Report, new_attempt, reserve_detail_attempt, transition_detail_attempt,
  apply_detail_worker_response,
}
use cv_match.Common.{◌>>=◌, ◌∷◌, ◌≡◌, ◌≤◌, some, [], ok, err, ◌+◌, false, none, inr, inl, refl}
use cv_match.Liepin.Ledger.Operations.History.{
  Reach, new_ledger, Reach-IsConsistent, next, new_ledger-IsConsistent, here, reserve, respond,
  transition,
}
use cv_match.Liepin.Ledger.Operations.Invariant.{IsConsistent}
use cv_match.Liepin.Ledger.Operations.Faults.{is_internal, no_internal_error}
use cv_match.Liepin.Ledger.States.{
  started, completed, invalid_transition, not_consumed, consumed, invalid_pair, attempt_not_found,
  response_attempt_mismatch, replay_mismatch, validate_detail_transition, reservation_incomplete,
  is_valid_pair,
}
use cv_match.Liepin.Ledger.Operations.Budget.{Reach-budget, Step-budget}
use cv_match.Liepin.Ledger.Operations.Replay.{reserve-reserve, apply-apply}
use cv_match.Liepin.Ledger.Operations.Finality.{Reach-final}

abbrev owner : Owner
owner = record { tenant_id = "t"; workspace_id = "w"; actor_id = "a" }

abbrev reservation : Reservation
reservation = record {
  owner = owner;
  provider_account_hash = "hash";
  candidate_provider_id = "cand";
  budget_date = "2026-05-18";
  provider_day_key = "day-1";
  timezone = "Asia/Shanghai";
  idempotency_key = "key";
}

abbrev budget_key : BudgetKey
budget_key = record { owner = owner; provider_account_hash = "hash"; provider_day_key = "day-1" }

abbrev start : Report
start = record {
  state = started;
  consumption_state = not_consumed;
  worker_command_id = some "cmd";
  raw_evidence_ref = none;
}

abbrev finish : Report
finish = record {
  state = completed;
  consumption_state = consumed;
  worker_command_id = none;
  raw_evidence_ref = some "ref";
}

abbrev reserved_row : DetailAttempt
unfolding new_attempt
reserved_row = new_attempt reservation "detail_1" "10:00"

abbrev started_row : DetailAttempt
started_row = record reserved_row {
  state = started;
  started_at = some "10:01";
  worker_command_id = some "cmd";
  updated_at = "10:01";
}

abbrev completed_row : DetailAttempt
completed_row = record started_row {
  state = completed;
  consumption_state = consumed;
  completed_at = some "10:02";
  raw_evidence_ref = some "ref";
  updated_at = "10:02";
}

abbrev response : WorkerResponse
response = record {
  owner = owner;
  worker_response_id = "resp";
  attempt_id = "detail_1";
  created_at = "10:02";
}

abbrev reserved_db : Ledger
reserved_db = record { attempts = reserved_row ∷ []; responses = [] }

abbrev started_db : Ledger
started_db = record { attempts = started_row ∷ []; responses = [] }

abbrev completed_db : Ledger
completed_db = record { attempts = completed_row ∷ []; responses = response ∷ [] }

program : Unit {0}
unfolding ◌>>=◌ new_attempt reserve_detail_attempt transition_detail_attempt
    apply_detail_worker_response fetch_attempt fetch_attempt_by_key fetch_response insert_attempt
    insert_response set_columns update_rows validate_detail_transition count_detail_budget_consumed
    spends is_valid_pair
program = tt

reserved :
    reserve_detail_attempt new_ledger reservation "detail_1" "10:00"
    ≡ ok (reserved_row, reserved_db)
unfolding program
reserved = refl

was_started :
    transition_detail_attempt reserved_db owner "detail_1" start "10:01"
    ≡ ok (started_row, started_db)
unfolding program
was_started = refl

was_completed :
    apply_detail_worker_response started_db owner "detail_1" "resp" finish "10:02"
    ≡ ok (completed_row, completed_db)
unfolding program
was_completed = refl

-- A completed attempt cannot be reopened, and a response id is of one attempt.
refusals :
    (transition_detail_attempt completed_db owner "detail_1" start "11:00" ≡ err invalid_transition)
    × (transition_detail_attempt started_db owner "detail_1"
          (record finish { consumption_state = not_consumed })
          "11:00"
        ≡ err invalid_pair)
    × (transition_detail_attempt started_db owner "detail_2" start "11:00" ≡ err attempt_not_found)
    × (apply_detail_worker_response completed_db owner "detail_2" "resp" finish "11:00"
        ≡ err response_attempt_mismatch)
    × (reserve_detail_attempt completed_db
          (record reservation { candidate_provider_id = "other" })
          "detail_2"
          "11:00"
        ≡ err replay_mismatch)
    × (reserve_detail_attempt completed_db (record reservation { timezone = "" }) "detail_2" "11:00"
        ≡ err reservation_incomplete)
unfolding program
refusals = (refl, refl, refl, refl, refl, refl)

run : Reach new_ledger completed_db
run =
    next
      (next (next here (reserve reservation "detail_1" "10:00" reserved))
        (transition owner "detail_1" start "10:01" was_started))
      (respond owner "detail_1" "resp" finish "10:02" was_completed)

Reach-IsConsistent_example : IsConsistent completed_db
Reach-IsConsistent_example = Reach-IsConsistent new_ledger-IsConsistent run

Reach-budget_example :
    count_detail_budget_consumed new_ledger budget_key
    ≤ count_detail_budget_consumed completed_db budget_key
Reach-budget_example = Reach-budget budget_key new_ledger-IsConsistent run

budget_spent : count_detail_budget_consumed completed_db budget_key ≡ 1
unfolding program
budget_spent = refl

completed-IsConsistent : IsConsistent completed_db
completed-IsConsistent = Reach-IsConsistent new_ledger-IsConsistent run

started-IsConsistent : IsConsistent started_db
started-IsConsistent = Reach-IsConsistent new_ledger-IsConsistent (
    next (next here (reserve reservation "detail_1" "10:00" reserved))
      (transition owner "detail_1" start "10:01" was_started))

Step-budget_example :
    (count_detail_budget_consumed started_db budget_key
      ≤ count_detail_budget_consumed completed_db budget_key)
    × (count_detail_budget_consumed completed_db budget_key
        ≤ count_detail_budget_consumed started_db budget_key + 1)
Step-budget_example =
    Step-budget budget_key started-IsConsistent
      (respond owner "detail_1" "resp" finish "10:02" was_completed)

reserve-reserve_example :
    reserve_detail_attempt reserved_db reservation "detail_9" "12:00"
    ≡ ok (reserved_row, reserved_db)
reserve-reserve_example =
    reserve-reserve new_ledger reservation "detail_1" "10:00" "detail_9" "12:00" reserved_row
      reserved_db reserved

apply-apply_example :
    apply_detail_worker_response completed_db owner "detail_1" "resp" start "12:00"
    ≡ ok (completed_row, completed_db)
apply-apply_example =
    apply-apply started_db owner "detail_1" "resp" finish start "10:02" "12:00" completed_row
      completed_db was_completed

completed_found : fetch_attempt completed_db owner "detail_1" ≡ some completed_row
unfolding program
completed_found = refl

other_reserved :
    (row : DetailAttempt) × (db : Ledger) × (reserve_detail_attempt completed_db
        (record reservation { idempotency_key = "key-2" })
        "detail_2"
        "11:00"
      ≡ ok (row, db))
unfolding program
other_reserved = (_, _, refl)

Reach-final_example : fetch_attempt other_reserved.1 owner "detail_1" ≡ some completed_row
Reach-final_example =
    Reach-final owner "detail_1" completed_row completed-IsConsistent completed_found refl (
      next here (
        reserve (record reservation { idempotency_key = "key-2" }) "detail_2" "11:00"
          other_reserved.2))

reopened :
    transition_detail_attempt completed_db owner "detail_1" start "11:00" ≡ err invalid_transition
unfolding program
reopened = refl

no_internal_error_example : is_internal invalid_transition ≡ false
no_internal_error_example =
    no_internal_error completed_db reservation owner "detail_1" "resp" start "11:00"
      invalid_transition completed-IsConsistent (inr (inl reopened))
