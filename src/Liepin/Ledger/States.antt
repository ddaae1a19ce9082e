-- ===== src/Liepin/Ledger/States.antt =====
-- The life cycle of a detail attempt: the states, the transitions that store.py allows, and the
-- consumption that may go with a state. A `Literal` type of the source is a data type, so the two
-- membership tests at the top of `_validate_detail_transition` cannot fail here.
use cv_match.Common.{
  Bool, true, false, not, ◌&&◌, Result, ok, err, ◌>>=◌, ◌>>◌, refuse, ◌≡◌, arith, if◌then◌else◌,
}

pub data DetailState : Type 0 where
  approved_not_started started provider_page_loaded detail_payload_seen completed : DetailState
  blocked_by_risk_control failed_before_consumption : DetailState
  failed_after_possible_consumption unknown : DetailState

pub data Consumption : Type 0 where
  not_consumed consumed possibly_consumed uncertain : Consumption

pub data LedgerError : Type 0 where
  reservation_incomplete replay_mismatch attempt_not_found response_id_missing : LedgerError
  response_attempt_mismatch invalid_transition invalid_pair completed_unconsumed : LedgerError
  early_failure_consumed late_failure_certain unknown_certain : LedgerError
  reservation_lost update_lost response_dangling integrity : LedgerError

-- `DETAIL_ALLOWED_TRANSITIONS[current]` holds `next`.
unfoldable pub is_allowed : DetailState → DetailState → Bool
is_allowed approved_not_started started = true
is_allowed approved_not_started failed_before_consumption = true
is_allowed approved_not_started unknown = true
is_allowed started provider_page_loaded = true
is_allowed started detail_payload_seen = true
is_allowed started completed = true
is_allowed started blocked_by_risk_control = true
is_allowed started failed_before_consumption = true
is_allowed started failed_after_possible_consumption = true
is_allowed started unknown = true
is_allowed provider_page_loaded detail_payload_seen = true
is_allowed provider_page_loaded blocked_by_risk_control = true
is_allowed provider_page_loaded failed_after_possible_consumption = true
is_allowed provider_page_loaded unknown = true
is_allowed detail_payload_seen completed = true
is_allowed detail_payload_seen failed_after_possible_consumption = true
is_allowed detail_payload_seen unknown = true
is_allowed _ _ = false

-- `_valid_consumption_states_for_detail_state(state)` holds the consumption.
unfoldable pub is_valid_pair : DetailState → Consumption → Bool
is_valid_pair completed consumed = true
is_valid_pair completed _ = false
is_valid_pair failed_after_possible_consumption possibly_consumed = true
is_valid_pair failed_after_possible_consumption _ = false
is_valid_pair unknown uncertain = true
is_valid_pair unknown possibly_consumed = true
is_valid_pair unknown _ = false
is_valid_pair _ not_consumed = true
is_valid_pair _ _ = false

abbrev pub is_completed : DetailState → Bool
is_completed completed = true
is_completed _ = false

abbrev pub is_early_failure : DetailState → Bool
is_early_failure failed_before_consumption = true
is_early_failure _ = false

abbrev pub is_late_failure : DetailState → Bool
is_late_failure failed_after_possible_consumption = true
is_late_failure _ = false

abbrev pub is_unknown : DetailState → Bool
is_unknown unknown = true
is_unknown _ = false

abbrev pub is_not_consumed : Consumption → Bool
is_not_consumed not_consumed = true
is_not_consumed _ = false

abbrev pub is_consumed : Consumption → Bool
is_consumed consumed = true
is_consumed _ = false

abbrev pub is_possibly_consumed : Consumption → Bool
is_possibly_consumed possibly_consumed = true
is_possibly_consumed _ = false

abbrev pub is_unknown_consumption : Consumption → Bool
is_unknown_consumption uncertain = true
is_unknown_consumption possibly_consumed = true
is_unknown_consumption _ = false

-- `_validate_detail_transition`
unfoldable pub validate_detail_transition :
    DetailState → DetailState → Consumption → Result LedgerError (Unit {0})
unfolding is_allowed is_valid_pair
validate_detail_transition current next consumption = do
  refuse (not (is_allowed current next)) invalid_transition
  refuse (not (is_valid_pair next consumption)) invalid_pair
  refuse (is_completed next && not (is_consumed consumption)) completed_unconsumed
  refuse (is_early_failure next && not (is_not_consumed consumption)) early_failure_consumed
  refuse (is_late_failure next && not (is_possibly_consumed consumption)) late_failure_certain
  refuse (is_unknown next && not (is_unknown_consumption consumption)) unknown_certain

-- The rows that `count_detail_budget_consumed` counts.
unfoldable pub counts_for_budget : Consumption → Bool
counts_for_budget not_consumed = false
counts_for_budget _ = true

-- A transition is accepted exactly when the table allows it and the consumption fits the new
-- state: the four tests behind them never refuse.
pub validate_iff :
    (s t : DetailState) (c : Consumption)
    → validate_detail_transition s t c ≡ (
        if is_allowed s t
        then if is_valid_pair t c then ok tt else err invalid_pair
        else err invalid_transition)
unfolding validate_detail_transition ◌>>=◌
validate_iff s t c = ground arith
