-- ===== src/Workbench/Jobs/Starts.antt =====
-- `start_source_run_job`.
use cv_match.Common.{
  ℕ, Bool, true, false, ◌&&◌, ◌||◌, ◌==◌, ltb, Option, none, some, List, [], ◌∷◌, ◌++◌, ok, err,
  if◌then◌else◌, any, select, take,
}
use cv_match.Common.Sorting.{sort_by}
use cv_match.Text.{Text, strip, text_eq}
use cv_match.Workbench.Tables.{
  RowId, SourceKind, cts, liepin, queued, not_required, job_queued, source_run_queued, User, Triage,
  Connection, SourceRun, Job, Store, integrity, key_error, liepin_connection_not_connected,
  requirement_triage_not_approved, source_run_already_terminal, Outcome, transaction, is_terminal,
  is_active, is_connected, is_approved, blocked, auth_login_required,
}
use cv_match.Workbench.Events.{append_event}
use cv_match.Workbench.Sessions.{triage_of}
use cv_match.Workbench.Jobs.{first, set_run, job_scope, owned_run, connection_for_user}
use cv_match.Workbench.Jobs.Reconciles.{reconcile_expired_running_jobs}

-- `_bounded_text`
unfoldable pub bounded_text : Option Text → ℕ → Option Text
bounded_text none max_length = none
bounded_text (some value) max_length = some (take max_length (strip value))

abbrev linked : Option Connection → Bool
linked none = false
linked (some connection) = is_connected connection.status

-- the arguments of a start, the id that `uuid4` draws, and the clock
pub record Start : Type 0 where
  pub user : User
  pub session_id : RowId
  pub source_run_id : RowId
  pub idempotency_key : Option Text
  pub job_id : RowId
  pub now : ℕ

-- the run and the job that a start returns, and whether the job is new
abbrev pub Started : Type 0
Started = SourceRun × (Job × Bool)

abbrev key_matches : Option Text → Option Text → Bool
key_matches none stored = false
key_matches (some key) none = false
key_matches (some key) (some stored) = text_eq stored key

-- the rows that a start looks for, oldest first
abbrev pub existing_jobs : Start → Store → List Job
existing_jobs req s =
    sort_by (λ x y. ltb x.created_at y.created_at)
      (select
        (λ job.
          job.source_run_id == req.source_run_id
          && (is_active job.status || key_matches req.idempotency_key job.idempotency_key))
        s.jobs)

abbrev pub new_job : Start → SourceRun → Job
new_job req run = record {
  job_id = req.job_id;
  workspace_id = req.user.workspace_id;
  user_id = req.user.user_id;
  session_id = req.session_id;
  source_run_id = req.source_run_id;
  source_kind = run.source_kind;
  status = job_queued;
  lease_owner = none;
  lease_expires_at = none;
  idempotency_key = bounded_text req.idempotency_key 128;
  attempt_count = 0;
  created_at = req.now;
  updated_at = req.now;
}

abbrev pub queue_run : SourceRun → SourceRun → SourceRun
queue_run source_run row = record row {
  status = queued;
  auth_state = source_run.auth_state;
  warning_code = none;
}

abbrev pub queue_job : Start → SourceRun → Store → Store
queue_job req run s =
    append_event (job_scope (new_job req run)) source_run_queued (
      set_run req.source_run_id (queue_run run)
        (record s { jobs = s.jobs ++ new_job req run ∷ [] }))

abbrev insert_job : Start → SourceRun → Store → Outcome (Option Started)
insert_job req run s =
    if any (λ job. job.job_id == req.job_id) s.jobs
    then (err integrity, s)
    else (ok (some (queue_run run run, (new_job req run, true))), queue_job req run s)

abbrev start_new : Start → SourceRun → Store → Option Job → Outcome (Option Started)
start_new req run s (some job) = (ok (some (run, (job, false))), s)
start_new req run s none =
    if is_terminal run.status then (err source_run_already_terminal, s) else insert_job req run s

abbrev start_triaged : Start → SourceRun → Store → Option Triage → Outcome (Option Started)
start_triaged req run s none = (err key_error, s)
start_triaged req run s (some triage) =
    if is_approved triage.status
    then start_new req run s (first (existing_jobs req s))
    else (err requirement_triage_not_approved, s)

abbrev pub block_login : SourceRun → SourceRun
block_login run = record run {
  status = blocked;
  auth_state = auth_login_required;
  warning_code = some "liepin_browser_login_required";
}

abbrev pub released : SourceRun → SourceRun
released run = record run { auth_state = not_required; warning_code = none }

abbrev start_kind : Start → SourceRun → Store → SourceKind → Outcome (Option Started)
start_kind req run s cts = start_triaged req run s (triage_of req.session_id s)
start_kind req run s liepin =
    if linked (connection_for_user req.user s)
    then start_triaged req (released run) s (triage_of req.session_id s)
    else (err liepin_connection_not_connected, set_run req.source_run_id block_login s)

abbrev start_found : Start → Store → Option SourceRun → Outcome (Option Started)
start_found req s none = (ok none, s)
start_found req s (some run) = start_kind req run s run.source_kind

-- the transaction of a start
unfoldable pub start_queued : Start → Store → Outcome (Option Started)
start_queued req s =
    transaction s (start_found req s (owned_run req.user req.session_id req.source_run_id s))

-- Leases are reconciled first, in a transaction of their own and at a time of their own.
unfoldable pub start_source_run_job : ℕ → Start → Store → Outcome (Option Started)
start_source_run_job reconciled_at req s =
    start_queued req (reconcile_expired_running_jobs reconciled_at s)
