-- ===== src/Workbench/Sessions.antt =====
-- Sessions and their triage: `create_workbench_session`, `update_requirement_triage` and
-- `approve_requirement_triage`. The ids that `uuid4` draws are arguments.
use cv_match.Common.{
  ℕ, Bool, true, false, ◌&&◌, ◌||◌, ◌==◌, Option, none, some, List, [], ◌∷◌, ◌++◌, String, ok, err,
  if◌then◌else◌, any, find, map,
}
use cv_match.Common.Updates.{update_where}
use cv_match.Workbench.Tables.{
  key_error, RowId, SourceKind, cts, liepin, RunStatus, queued, blocked, AuthState, not_required,
  auth_login_required, draft, approved, session_created, requirement_triage_updated,
  requirement_triage_approved, User, Session, Criteria, Triage, SourceRun, Store, integrity,
  requirement_triage_empty, Outcome, transaction, proceed, is_liepin, is_connected,
}
use cv_match.Workbench.Events.{Scope, append_event}

abbrev pub of_user : User → RowId → RowId → Bool
of_user user workspace_id user_id = workspace_id == user.workspace_id && user_id == user.user_id

abbrev pub session_scope : User → RowId → Scope
session_scope user session_id = record {
  workspace_id = user.workspace_id;
  user_id = user.user_id;
  session_id = some session_id;
  source_run_id = none;
  source_kind = none;
}

-- the session's own row, if it belongs to the user
abbrev pub session_exists_for_user : User → RowId → Store → Bool
session_exists_for_user user session_id s =
    any
      (λ session.
        session.session_id == session_id && of_user user session.workspace_id session.user_id)
      s.sessions

abbrev pub triage_of : RowId → Store → Option Triage
triage_of session_id s = find (λ triage. triage.session_id == session_id) s.triages

abbrev pub no_criteria : Criteria
no_criteria = record {
  must_haves = [];
  nice_to_haves = [];
  synonyms = [];
  seniority_filters = [];
  exclusions = [];
  generated_query_hints = [];
}

abbrev is_listed : List String → Bool
is_listed [] = false
is_listed (x ∷ xs) = true

unfoldable pub has_visible_criteria : Criteria → Bool
has_visible_criteria c =
    is_listed c.must_haves
    || (is_listed c.nice_to_haves
        || (is_listed c.synonyms
            || (is_listed c.seniority_filters
                || (is_listed c.exclusions || is_listed c.generated_query_hints))))

abbrev run_start : SourceKind → Bool → RunStatus × (AuthState × Option String)
run_start cts connected = (queued, (not_required, none))
run_start liepin true = (queued, (not_required, none))
run_start liepin false = (blocked, (auth_login_required, some "liepin_browser_login_required"))

-- `_new_source_run`, in the row that is inserted
abbrev pub new_source_run : User → RowId → Bool → ℕ → RowId × SourceKind → SourceRun
new_source_run user session_id connected now (source_run_id, kind) = record {
  source_run_id = source_run_id;
  session_id = session_id;
  workspace_id = user.workspace_id;
  user_id = user.user_id;
  source_kind = kind;
  status = (run_start kind connected).0;
  auth_state = (run_start kind connected).1.0;
  warning_code = (run_start kind connected).1.1;
  runtime_run_id = none;
  cards_scanned_count = 0;
  unique_candidates_count = 0;
  detail_open_used_count = 0;
  detail_open_blocked_count = 0;
  created_at = now;
}

-- the INSERTs into source_runs, with their primary key
unfoldable pub insert_runs : List SourceRun → Store → Outcome (Unit {0})
insert_runs [] s = (ok tt, s)
insert_runs (run ∷ runs) s =
    let rest = insert_runs runs (record s { runs = s.runs ++ run ∷ [] }) in
    if any (λ other. other.source_run_id == run.source_run_id) s.runs
    then (err integrity, s)
    else rest

abbrev pub any_connected : User → Store → Bool
any_connected user s =
    any
      (λ connection.
        of_user user connection.workspace_id connection.user_id && is_connected connection.status)
      s.connections

abbrev pub insert_triage : Triage → Store → Outcome (Unit {0})
insert_triage triage s =
    if any (λ other. other.session_id == triage.session_id) s.triages
    then (err integrity, s)
    else (ok tt, record s { triages = s.triages ++ triage ∷ [] })

abbrev pub insert_session : Session → Store → Outcome (Unit {0})
insert_session session s =
    if any (λ other. other.session_id == session.session_id) s.sessions
    then (err integrity, s)
    else (ok tt, record s { sessions = s.sessions ++ session ∷ [] })

abbrev pub new_session : User → RowId → Session
new_session user session_id = record {
  session_id = session_id;
  workspace_id = user.workspace_id;
  user_id = user.user_id;
}

abbrev pub new_triage : User → RowId → ℕ → Triage
new_triage user session_id now = record {
  session_id = session_id;
  workspace_id = user.workspace_id;
  user_id = user.user_id;
  status = draft;
  criteria = no_criteria;
  updated_at = now;
  approved_at = none;
}

abbrev pub new_runs : User → RowId → List (RowId × SourceKind) → ℕ → Store → List SourceRun
new_runs user session_id kinds now s = map (new_source_run user session_id linked now) kinds
  where
    linked : Bool
    linked = any (λ kind. is_liepin kind.1) kinds && any_connected user s

unfoldable pub create_workbench_session :
    User → RowId → List (RowId × SourceKind) → ℕ → Store → Outcome Session
unfolding insert_runs append_event
create_workbench_session user session_id kinds now s = transaction s (
    proceed (insert_session (new_session user session_id) s) λ _ s₁.
      proceed (insert_runs (new_runs user session_id kinds now s) s₁) λ _ s₂.
        proceed (insert_triage (new_triage user session_id now) s₂) λ _ s₃. (
          ok (new_session user session_id),
          append_event (session_scope user session_id) session_created s₃,
        ))

abbrev owned_triage : User → RowId → Triage → Bool
owned_triage user session_id triage =
    triage.session_id == session_id && of_user user triage.workspace_id triage.user_id

-- the lookup that raises when the session has no triage
abbrev pub need_triage : Option Triage → Store → Outcome Bool
need_triage none s = (err key_error, s)
need_triage (some triage) s = (ok true, s)

abbrev redraft : Criteria → ℕ → Triage → Triage
redraft criteria now triage = record triage {
  status = draft;
  criteria = criteria;
  updated_at = now;
  approved_at = none;
}

abbrev pub redrafted : User → RowId → Criteria → ℕ → Store → Store
redrafted user session_id criteria now s = record s {
  triages = update_where (owned_triage user session_id) (redraft criteria now) s.triages;
}

-- The Boolean tells whether the session is the user's.
unfoldable pub update_requirement_triage : User → RowId → Criteria → ℕ → Store → Outcome Bool
update_requirement_triage user session_id criteria now s =
    if session_exists_for_user user session_id s
    then transaction s (
        need_triage (triage_of session_id (redrafted user session_id criteria now s)) (
          append_event (session_scope user session_id) requirement_triage_updated
            (redrafted user session_id criteria now s)))
    else (ok false, s)

abbrev pub approve_found : User → RowId → ℕ → Store → Option Triage → Outcome Bool
approve_found user session_id now s none = (ok false, s)
approve_found user session_id now s (some triage) =
    if has_visible_criteria triage.criteria
    then (ok true, append_event (session_scope user session_id) requirement_triage_approved changed)
    else (err requirement_triage_empty, s)
  where
    approve : Triage → Triage
    approve row = record row { status = approved; updated_at = now; approved_at = some now }

    changed : Store
    changed = record s { triages = update_where (owned_triage user session_id) approve s.triages }

unfoldable pub approve_requirement_triage : User → RowId → ℕ → Store → Outcome Bool
approve_requirement_triage user session_id now s =
    if session_exists_for_user user session_id s
    then transaction s (approve_found user session_id now s (triage_of session_id s))
    else (ok false, s)
