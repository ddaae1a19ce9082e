-- ===== src/Workbench/Connections.antt =====
-- The Liepin connection of a user, and what its login does to the runs that wait for it:
-- `get_or_create_liepin_source_connection`, `start_liepin_login_handoff`, the three methods that
-- mark it connected, and the one that asks for a login. The rows of the connection's own history
-- and of the security audit are left out.
use cv_match.Common.{
  Bool, true, false, not, ◌&&◌, ◌||◌, ◌==◌, ℕ, Option, none, some, [], ◌∷◌, ◌++◌, String, ok, err,
  any, if◌then◌else◌,
}
use cv_match.Common.Updates.{update_where}
use cv_match.Workbench.Tables.{
  RowId, liepin, queued, not_required, login_required, login_in_progress, connected,
  source_connection_status_changed, User, Connection, SourceRun, Store, integrity, Outcome,
  transaction, is_liepin, is_queued, is_blocked, is_running, is_terminal, needs_login,
}
use cv_match.Workbench.Events.{Scope, append_event}
use cv_match.Workbench.Sessions.{of_user}
use cv_match.Workbench.Jobs.{owned_run, connection_for_user}
use cv_match.Workbench.Jobs.Endings.{has_active_job}

abbrev pub connection_scope : User → Option RowId → Option RowId → Scope
connection_scope user session_id source_run_id = record {
  workspace_id = user.workspace_id;
  user_id = user.user_id;
  session_id = session_id;
  source_run_id = source_run_id;
  source_kind = some liepin;
}

abbrev changed_event : User → Option RowId → Option RowId → Store → Store
changed_event user session_id source_run_id s =
    append_event (connection_scope user session_id source_run_id) source_connection_status_changed s

abbrev pub set_connection : RowId → (Connection → Connection) → Store → Store
set_connection connection_id f s = record s {
  connections =
      update_where (λ connection. connection.connection_id == connection_id) f s.connections;
}

abbrev pub has_connection : User → RowId → Store → Bool
has_connection user connection_id s =
    any
      (λ connection.
        of_user user connection.workspace_id connection.user_id
        && connection.connection_id == connection_id)
      s.connections

abbrev new_connection : User → RowId → ℕ → Connection
new_connection user connection_id now = record {
  connection_id = connection_id;
  workspace_id = user.workspace_id;
  user_id = user.user_id;
  status = login_required;
  warning_code = some "login_required";
  provider_account_hash = none;
  compliance_gate_ref = none;
  updated_at = now;
  connected_at = none;
}

abbrev pub create_connection :
    User → RowId → ℕ → Store → Option Connection → Outcome (Connection × Bool)
create_connection user connection_id now s (some connection) = (ok (connection, false), s)
create_connection user connection_id now s none =
    if any (λ other. other.connection_id == connection_id) s.connections
    then (err integrity, s)
    else (
      ok (new_connection user connection_id now, true),
      changed_event user none none
          (record s { connections = s.connections ++ new_connection user connection_id now ∷ [] }),
    )

unfoldable pub get_or_create_connection : User → RowId → ℕ → Store → Outcome (Connection × Bool)
get_or_create_connection user connection_id now s =
    transaction s (create_connection user connection_id now s (connection_for_user user s))

-- `COALESCE(?, column)`
abbrev coalesce : Option String → Option String → Option String
coalesce none column = column
coalesce (some value) column = some value

-- What a caller knows of the account that is logged in.
pub record Account : Type 0 where
  pub provider_account_hash : Option String
  pub compliance_gate_ref : Option String

-- The Boolean tells that the connection was found.
unfoldable pub start_login_handoff :
    User → RowId → Account → Option String → ℕ → Store → Bool × Store
start_login_handoff user connection_id account warning_code now s =
    if has_connection user connection_id s
    then (true, changed_event user none none (set_connection connection_id login s))
    else (false, s)
  where
    login : Connection → Connection
    login connection = record connection {
      status = login_in_progress;
      warning_code = warning_code;
      provider_account_hash =
          coalesce account.provider_account_hash connection.provider_account_hash;
      compliance_gate_ref = coalesce account.compliance_gate_ref connection.compliance_gate_ref;
      updated_at = now;
    }

abbrev connect : Account → ℕ → Connection → Connection
connect account now connection = record connection {
  status = connected;
  warning_code = none;
  provider_account_hash = coalesce account.provider_account_hash connection.provider_account_hash;
  compliance_gate_ref = coalesce account.compliance_gate_ref connection.compliance_gate_ref;
  connected_at = some now;
  updated_at = now;
}

abbrev pub unblock_run : SourceRun → SourceRun
unblock_run run = record run { status = queued; auth_state = not_required; warning_code = none }

abbrev pub unblock_runs : (SourceRun → Bool) → Store → Store
unblock_runs p s = record s {
  runs = update_where (λ run. is_blocked run.status && p run) unblock_run s.runs;
}

abbrev pub waits_for_login : User → SourceRun → Bool
waits_for_login user run =
    of_user user run.workspace_id run.user_id
    && (is_liepin run.source_kind && needs_login run.auth_state)

abbrev pub run_in : RowId → RowId → SourceRun → Bool
run_in source_run_id session_id run =
    run.source_run_id == source_run_id
    && (run.session_id == session_id && is_liepin run.source_kind)

-- `mark_liepin_connection_connected`: every run of the user that waited for the login is released.
unfoldable pub mark_connected : User → RowId → Account → ℕ → Store → Bool × Store
mark_connected user connection_id account now s =
    if has_connection user connection_id s
    then (
      true,
      changed_event user none none (
          unblock_runs (waits_for_login user)
            (set_connection connection_id (connect account now) s)),
    )
    else (false, s)

-- `mark_liepin_connection_connected_without_source_runs`
unfoldable pub mark_connected_without_runs : User → RowId → Account → ℕ → Store → Bool × Store
mark_connected_without_runs user connection_id account now s =
    if has_connection user connection_id s
    then (true, changed_event user none none (set_connection connection_id (connect account now) s))
    else (false, s)

abbrev pub owned_liepin : Option SourceRun → Option SourceRun
owned_liepin none = none
owned_liepin (some run) = if is_liepin run.source_kind then some run else none

abbrev pub connect_run :
    User → RowId → RowId → RowId → Account → ℕ → Store → Option SourceRun → Bool × Store
connect_run user connection_id session_id source_run_id account now s none = (false, s)
connect_run user connection_id session_id source_run_id account now s (some run) = (
  true,
  changed_event user (some session_id) (some source_run_id) (
      unblock_runs (run_in source_run_id session_id)
        (set_connection connection_id (connect account now) s)),
)

-- `mark_liepin_connection_connected_for_source_run`, whose account hash is always given
unfoldable pub mark_connected_for_run :
    User → RowId → RowId → RowId → Account → ℕ → Store → Bool × Store
mark_connected_for_run user connection_id session_id source_run_id account now s =
    if has_connection user connection_id s
    then connect_run user connection_id session_id source_run_id account now s
        (owned_liepin (owned_run user session_id source_run_id s))
    else (false, s)

abbrev may_ask : Option SourceRun → Bool → Bool
may_ask none has_job = false
may_ask (some run) has_job =
    not (is_running run.status)
    && (not (is_terminal run.status)
        && (not (is_queued run.status && has_job)
            && (is_blocked run.status || (is_queued run.status || needs_login run.auth_state))))

abbrev pub asks : User → Option RowId → Option RowId → Store → Bool
asks user (some session_id) (some source_run_id) s =
    may_ask (owned_liepin (owned_run user session_id source_run_id s))
      (has_active_job source_run_id s)
asks user _ _ s = true

unfoldable pub mark_login_required :
    User → RowId → String → Option RowId → Option RowId → ℕ → Store → Bool × Store
mark_login_required user connection_id warning_code session_id source_run_id now s =
    if has_connection user connection_id s && asks user session_id source_run_id s
    then (true, changed_event user session_id source_run_id (set_connection connection_id ask s))
    else (false, s)
  where
    ask : Connection → Connection
    ask connection = record connection {
      status = login_required;
      warning_code = some warning_code;
      connected_at = none;
      updated_at = now;
    }
