-- ===== src/Workbench/Jobs.antt =====
-- The queue of source-run jobs: the searches and the UPDATEs that its methods share, and a module
-- for each of them.
pub mod Reconciles
pub mod Starts
pub mod Claims
pub mod Endings
use cv_match.Common.{
  ℕ, suc, Bool, true, false, not, ◌&&◌, ◌||◌, ◌==◌, leb, ltb, Option, none, some, List, [], ◌∷◌,
  ◌++◌, ok, err, if◌then◌else◌, any, find, select, take, is_some,
}
use cv_match.Common.Updates.{update_where}
use cv_match.Common.Sorting.{sort_by, then_by}
use cv_match.Text.{Text, strip, text_eq}
use cv_match.Workbench.Tables.{
  RowId, SourceKind, cts, liepin, RunStatus, queued, running, failed, AuthState, not_required,
  job_queued, job_running, job_failed, source_run_queued, source_run_started, source_run_failed,
  User, Session, Triage, Connection, SourceRun, Job, Store, StoreError, integrity, key_error,
  liepin_connection_not_connected, requirement_triage_not_approved, source_run_already_terminal,
  Outcome, transaction, same_kind, is_terminal, job_waits, job_runs, is_active, is_connected,
  is_approved, blocked, auth_login_required, run_key, job_key,
}
use cv_match.Workbench.Events.{Scope, append_event, is_id}
use cv_match.Workbench.Sessions.{of_user, triage_of}

abbrev pub first {ℓ} : {A : Type ℓ} → List A → Option A
first [] = none
first (x ∷ xs) = some x

abbrev pub set_run : RowId → (SourceRun → SourceRun) → Store → Store
set_run source_run_id f s = record s {
  runs = update_where (λ run. run.source_run_id == source_run_id) f s.runs;
}

abbrev pub set_jobs : (Job → Bool) → (Job → Job) → Store → Store
set_jobs p f s = record s { jobs = update_where p f s.jobs }

abbrev pub run_of : RowId → Store → Option SourceRun
run_of source_run_id s = find (λ run. run.source_run_id == source_run_id) s.runs

abbrev pub job_of : RowId → Store → Option Job
job_of job_id s = find (λ job. job.job_id == job_id) s.jobs

-- the scope of the events of a run
abbrev pub job_scope : Job → Scope
job_scope job = record {
  workspace_id = job.workspace_id;
  user_id = job.user_id;
  session_id = some job.session_id;
  source_run_id = some job.source_run_id;
  source_kind = some job.source_kind;
}

-- the join of a run with its session, both the user's
abbrev pub owns_run : User → RowId → RowId → Store → SourceRun → Bool
owns_run user session_id source_run_id s run =
    run.source_run_id == source_run_id
    && (run.session_id == session_id
        && (of_user user run.workspace_id run.user_id
            && any
                (λ session. session.session_id == run.session_id && session.user_id == user.user_id)
                s.sessions))

abbrev pub owned_run : User → RowId → RowId → Store → Option SourceRun
owned_run user session_id source_run_id s = find (owns_run user session_id source_run_id s) s.runs

-- `_liepin_connection_for_user_conn`
abbrev pub connection_for_user : User → Store → Option Connection
connection_for_user user s =
    find (λ connection. of_user user connection.workspace_id connection.user_id) s.connections
