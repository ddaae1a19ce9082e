-- ===== src/Workbench/Jobs/Reconciles.antt =====
-- `reconcile_expired_running_jobs`, and `has_active_source_run_job`, which calls it.
use cv_match.Common.{
  ℕ, Bool, true, false, ◌&&◌, ◌==◌, leb, ltb, Option, none, some, List, [], ◌∷◌, any, select,
}
use cv_match.Common.Sorting.{sort_by, then_by}
use cv_match.Workbench.Tables.{
  RowId, failed, job_failed, source_run_failed, User, SourceRun, Job, Store, job_runs, is_active,
}
use cv_match.Workbench.Events.{append_event}
use cv_match.Workbench.Sessions.{of_user}
use cv_match.Workbench.Jobs.{set_run, set_jobs, job_scope}

abbrev pub expired_at : ℕ → Job → Bool
expired_at now job =
    job_runs job.status && (elim job.lease_expires_at [ none ↦ false | some t ↦ leb t now ])

abbrev lease_before : Option ℕ → Option ℕ → ℕ → ℕ → Bool
lease_before none none i j = ltb i j
lease_before none (some t) i j = true
lease_before (some t) none i j = false
lease_before (some t) (some u) i j = then_by t u (ltb i j)

abbrev pub expires_before : Job → Job → Bool
expires_before x y = lease_before x.lease_expires_at y.lease_expires_at x.job_id y.job_id

abbrev pub expire : ℕ → Job → Job
expire now job = record job {
  status = job_failed;
  lease_owner = none;
  lease_expires_at = none;
  updated_at = now;
}

abbrev pub expire_run : SourceRun → SourceRun
expire_run run = record run { status = failed; warning_code = some "job_lease_expired" }

-- one iteration of the loop over the expired rows
abbrev pub reconcile_row : ℕ → Job → Store → Store
reconcile_row now row s = append_event (job_scope row) source_run_failed (
    set_run row.source_run_id expire_run
      (set_jobs (λ job. job.job_id == row.job_id && job_runs job.status) (expire now) s))

unfoldable pub reconcile_rows : ℕ → List Job → Store → Store
reconcile_rows now [] s = s
reconcile_rows now (row ∷ rows) s = reconcile_rows now rows (reconcile_row now row s)

unfoldable pub reconcile_expired_running_jobs : ℕ → Store → Store
reconcile_expired_running_jobs now s =
    reconcile_rows now (sort_by expires_before (select (expired_at now) s.jobs)) s

abbrev pub active_job_of : User → RowId → RowId → Store → Job → Bool
active_job_of user session_id source_run_id s job =
    job.source_run_id == source_run_id
    && (job.session_id == session_id
        && (of_user user job.workspace_id job.user_id
            && (is_active job.status
                && any
                    (λ run.
                      run.source_run_id == job.source_run_id
                      && (of_user user run.workspace_id run.user_id
                          && any
                              (λ session.
                                session.session_id == run.session_id
                                && session.user_id == user.user_id)
                              s.sessions))
                    s.runs)))

unfoldable pub has_active_source_run_job : ℕ → User → RowId → RowId → Store → Bool × Store
has_active_source_run_job reconciled_at user session_id source_run_id s =
    (any (active_job_of user session_id source_run_id reconciled) reconciled.jobs, reconciled)
  where
    reconciled : Store
    reconciled = reconcile_expired_running_jobs reconciled_at s
