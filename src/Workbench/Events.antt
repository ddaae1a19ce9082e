-- ===== src/Workbench/Events.antt =====
-- `_append_workbench_event_conn`: the log of events, numbered within each session.
use cv_match.Common.{
  ℕ, suc, max, Bool, false, Option, none, some, List, [], ◌∷◌, ◌++◌, ◌&&◌, ◌==◌, if◌then◌else◌,
}
use cv_match.Workbench.Tables.{RowId, SourceKind, EventName, Event, Store}

-- whom an event is about
pub record Scope : Type 0 where
  pub workspace_id : RowId
  pub user_id : RowId
  pub session_id : Option RowId
  pub source_run_id : Option RowId
  pub source_kind : Option SourceKind

abbrev pub is_id : Option RowId → RowId → Bool
is_id none id = false
is_id (some x) id = x == id

abbrev pub in_session : RowId → RowId → Event → Bool
in_session workspace_id session_id event =
    event.workspace_id == workspace_id && is_id event.session_id session_id

abbrev pub or_zero : Option ℕ → ℕ
or_zero none = 0
or_zero (some n) = n

-- `COALESCE(MAX(session_seq), 0)`
abbrev pub last_seq : RowId → RowId → List Event → ℕ
last_seq workspace_id session_id [] = 0
last_seq workspace_id session_id (event ∷ events) =
    let rest = last_seq workspace_id session_id events in
    if in_session workspace_id session_id event then max (or_zero event.session_seq) rest else rest

abbrev next_seq : RowId → Option RowId → List Event → Option ℕ
next_seq workspace_id none events = none
next_seq workspace_id (some session_id) events =
    some (suc (last_seq workspace_id session_id events))

abbrev pub new_event : Scope → EventName → List Event → Event
new_event scope event_name events = record {
  workspace_id = scope.workspace_id;
  user_id = scope.user_id;
  session_id = scope.session_id;
  session_seq = next_seq scope.workspace_id scope.session_id events;
  source_run_id = scope.source_run_id;
  source_kind = scope.source_kind;
  event_name = event_name;
}

unfoldable pub append_event : Scope → EventName → Store → Store
append_event scope event_name s = record s {
  events = s.events ++ new_event scope event_name s.events ∷ [];
}
