-- ===== src/Workbench/Jobs/Endings.antt =====
-- How a job ends: `_finish_source_run_job_conn` and the methods that call it, except for the end of
-- a Liepin card search, which is in Workbench/Details/Cards.antt; and
-- `block_source_run_for_start_probe`, which blocks a run that has no job.
--
-- The rows of the candidates that a completion writes are left out; what it counts is in the
-- record of the run's artifacts.
use cv_match.Common.{
  ℕ, Bool, true, false, not, ◌&&◌, ◌||◌, ◌==◌, Option, none, some, String, ok, err, any,
  if◌then◌else◌,
}
use cv_match.Text.{Text, strip, text_eq, is_blank}
use cv_match.Workbench.Tables.{
  RowId, liepin, cts, RunStatus, blocked, completed, failed, JobStatus, job_completed, job_failed,
  EventName, source_run_completed, source_run_failed, source_run_blocked, cts_runtime_completed,
  User, SourceRun, Job, Store, Outcome, transaction, is_cts, is_liepin, is_queued, is_blocked,
  is_running, is_terminal, needs_login, auth_login_required, job_runs, is_active,
  runtime_run_id_required, cts_source_run_not_found, runtime_run_id_conflict, proceed,
}
use cv_match.Workbench.Events.{Scope, append_event}
use cv_match.Workbench.Jobs.Claims.{Context}
use cv_match.Workbench.Jobs.{set_run, set_jobs, job_of, run_of, owned_run, job_scope}
use cv_match.Common.{find}
use cv_match.Common.Updates.{update_where}

-- The last statements of a job: its own row, its run, and the event.
pub record Ending : Type 0 where
  pub job_status : JobStatus
  pub run_status : RunStatus
  pub warning_code : Option String
  pub event_name : EventName

abbrev pub end_job : Ending → ℕ → Job → Job
end_job ending now job = record job {
  status = ending.job_status;
  lease_owner = none;
  lease_expires_at = none;
  updated_at = now;
}

abbrev pub end_run : Ending → SourceRun → SourceRun
end_run ending run = record run { status = ending.run_status; warning_code = ending.warning_code }

-- `_finish_source_run_job_conn`
unfoldable pub finish_row : Ending → ℕ → Job → Store → Store
finish_row ending now row s = append_event (job_scope row) ending.event_name (
    set_run row.source_run_id (end_run ending)
      (set_jobs (λ job. job.job_id == row.job_id) (end_job ending now) s))

abbrev finish_found : Ending → ℕ → Store → Option Job → Store
finish_found ending now s none = s
finish_found ending now s (some row) =
    if job_runs row.status then finish_row ending now row s else s

-- `_finish_source_run_job`
unfoldable pub finish_source_run_job : Ending → ℕ → RowId → Store → Store
finish_source_run_job ending now job_id s = finish_found ending now s (job_of job_id s)

abbrev pub completion : Ending
completion = record {
  job_status = job_completed;
  run_status = completed;
  warning_code = none;
  event_name = source_run_completed;
}

abbrev pub failure : Ending
failure = record {
  job_status = job_failed;
  run_status = failed;
  warning_code = some "runtime_failed";
  event_name = source_run_failed;
}

unfoldable pub mark_source_run_completed : ℕ → RowId → Store → Store
mark_source_run_completed now job_id s = finish_source_run_job completion now job_id s

unfoldable pub mark_source_run_failed : ℕ → RowId → Store → Store
mark_source_run_failed now job_id s = finish_source_run_job failure now job_id s

-- what the runtime of a CTS run hands over, and what the persisting of its candidates counts
pub record CtsArtifacts : Type 0 where
  pub runtime_run_id : Option Text
  pub review_item_count : ℕ
  pub cards_scanned_count : ℕ

-- the columns of `_source_run_runtime_link_row_conn`
abbrev pub link_row : Context → Store → Option SourceRun
link_row context s =
    find
      (λ run.
        run.workspace_id == context.session.workspace_id
        && (run.user_id == context.session.user_id
            && (run.session_id == context.session.session_id
                && run.source_run_id == context.job.source_run_id)))
      s.runs

abbrev pub conflicts : Option Text → Text → Bool
conflicts none runtime_run_id = false
conflicts (some existing) runtime_run_id =
    not (is_blank existing) && not (text_eq existing runtime_run_id)

abbrev validate_row : Text → Store → Option SourceRun → Outcome (Unit {0})
validate_row runtime_run_id s none = (err cts_source_run_not_found, s)
validate_row runtime_run_id s (some run) =
    if not (is_cts run.source_kind)
    then (err cts_source_run_not_found, s)
    else if conflicts run.runtime_run_id runtime_run_id
    then (err runtime_run_id_conflict, s)
    else (ok tt, s)

-- `_validate_source_run_runtime_run_id_conn`
unfoldable pub validate_runtime_run_id : Context → Text → Store → Outcome (Unit {0})
validate_runtime_run_id context runtime_run_id s =
    if is_blank (strip runtime_run_id)
    then (err runtime_run_id_required, s)
    else validate_row (strip runtime_run_id) s (link_row context s)

abbrev pub attach_where : Context → SourceRun → Bool
attach_where context run =
    run.workspace_id == context.session.workspace_id
    && (run.user_id == context.session.user_id
        && (run.session_id == context.session.session_id
            && (run.source_run_id == context.job.source_run_id
                && (elim run.runtime_run_id [ none ↦ true | some _ ↦ false ]))))

abbrev pub attach : Text → SourceRun → SourceRun
attach runtime_run_id run = record run { runtime_run_id = some (strip runtime_run_id) }

-- `_attach_source_run_runtime_run_id_conn`. Its return for an id that is attached already is an
-- UPDATE without rows here: the statement asks for a row without one.
unfoldable pub attach_runtime_run_id : Context → Text → Store → Outcome (Unit {0})
unfolding validate_runtime_run_id
attach_runtime_run_id context runtime_run_id s =
    proceed (validate_runtime_run_id context runtime_run_id s) λ _ s'. (
      ok tt,
      record s' { runs = update_where (attach_where context) (attach runtime_run_id) s'.runs },
    )

abbrev pub count_run : CtsArtifacts → SourceRun → SourceRun
count_run artifacts run = record run {
  cards_scanned_count = artifacts.cards_scanned_count;
  unique_candidates_count = artifacts.review_item_count;
  status = completed;
  warning_code = none;
}

abbrev pub context_scope : Context → Scope
context_scope context = record {
  workspace_id = context.session.workspace_id;
  user_id = context.session.user_id;
  session_id = some context.session.session_id;
  source_run_id = some context.job.source_run_id;
  source_kind = some cts;
}

abbrev pub complete_cts_row : CtsArtifacts → ℕ → Context → Job → Store → Store
complete_cts_row artifacts now context row s = finish_row completion now row (
    append_event (context_scope context) cts_runtime_completed
      (set_run context.job.source_run_id (count_run artifacts) s))

abbrev pub validate_any : Context → Store → Option Text → Outcome (Unit {0})
validate_any context s none = (ok tt, s)
validate_any context s (some runtime_run_id) = validate_runtime_run_id context runtime_run_id s

abbrev pub attach_any : Context → Store → Option Text → Outcome (Unit {0})
attach_any context s none = (ok tt, s)
attach_any context s (some runtime_run_id) = attach_runtime_run_id context runtime_run_id s

abbrev pub complete_cts_found : CtsArtifacts → ℕ → Context → Store → Option Job → Outcome (Unit {0})
complete_cts_found artifacts now context s none = (ok tt, s)
complete_cts_found artifacts now context s (some row) =
    if job_runs row.status
    then proceed (attach_any context s artifacts.runtime_run_id)
        (λ _ s'. (ok tt, complete_cts_row artifacts now context row s'))
    else validate_any context s artifacts.runtime_run_id

-- `complete_cts_source_run_with_candidate_results`
unfoldable pub complete_cts_source_run : CtsArtifacts → ℕ → Context → Store → Outcome (Unit {0})
complete_cts_source_run artifacts now context s =
    transaction s (complete_cts_found artifacts now context s (job_of context.job.job_id s))

abbrev pub has_active_job : RowId → Store → Bool
has_active_job source_run_id s =
    any (λ job. job.source_run_id == source_run_id && is_active job.status) s.jobs

abbrev pub block_run : String → SourceRun → SourceRun
block_run warning_code run = record run {
  status = blocked;
  auth_state = auth_login_required;
  warning_code = some warning_code;
}

abbrev pub unblockable : SourceRun → Bool → Bool
unblockable run has_job =
    not (is_liepin run.source_kind)
    || (is_running run.status
        || (is_terminal run.status
            || ((is_queued run.status && has_job)
                || not (
                    is_blocked run.status
                    || (is_queued run.status || needs_login run.auth_state)))))

abbrev pub block_where : RowId → RowId → SourceRun → Bool
block_where session_id source_run_id run =
    run.source_run_id == source_run_id
    && (run.session_id == session_id
        && (is_liepin run.source_kind
            && (not (is_running run.status)
                && (not (is_terminal run.status)
                    && (is_blocked run.status
                        || (is_queued run.status || needs_login run.auth_state))))))

abbrev blocked_scope : User → RowId → RowId → Scope
blocked_scope user session_id source_run_id = record {
  workspace_id = user.workspace_id;
  user_id = user.user_id;
  session_id = some session_id;
  source_run_id = some source_run_id;
  source_kind = some liepin;
}

abbrev block_found :
    User → RowId → RowId → String → Store → Option SourceRun → Option SourceRun × Store
block_found user session_id source_run_id warning_code s none = (none, s)
block_found user session_id source_run_id warning_code s (some run) =
    if unblockable run (has_active_job source_run_id s) then (some run, s) else (
      run_of source_run_id changed,
      append_event (blocked_scope user session_id source_run_id) source_run_blocked changed,
    )
  where
    changed : Store
    changed = record s {
      runs = update_where (block_where session_id source_run_id) (block_run warning_code) s.runs;
    }

-- `block_source_run_for_start_probe`
unfoldable pub block_for_start_probe :
    User → RowId → RowId → String → Store → Option SourceRun × Store
block_for_start_probe user session_id source_run_id warning_code s =
    block_found user session_id source_run_id warning_code s
      (owned_run user session_id source_run_id s)
