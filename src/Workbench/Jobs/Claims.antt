-- ===== src/Workbench/Jobs/Claims.antt =====
-- `claim_next_source_run_job` and `extend_source_run_job_lease`.
use cv_match.Common.{
  ℕ, suc, Bool, true, ◌&&◌, ◌==◌, ltb, Option, none, some, List, ok, err, if◌then◌else◌, any, find,
  select,
}
use cv_match.Common.Sorting.{sort_by, then_by}
use cv_match.Workbench.Tables.{
  RowId, SourceKind, running, job_running, source_run_started, Session, Triage, SourceRun, Job,
  Store, key_error, Outcome, transaction, same_kind, job_waits, job_runs,
}
use cv_match.Workbench.Events.{append_event, is_id}
use cv_match.Workbench.Sessions.{triage_of}
use cv_match.Workbench.Jobs.{first, set_run, set_jobs, job_of, job_scope}

-- the arguments of a claim, and the clock
pub record Claim : Type 0 where
  pub owner_id : RowId
  pub lease_expires_at : ℕ
  pub source_kind : Option SourceKind
  pub now : ℕ

-- what the runner works on
pub record Context : Type 0 where
  pub job : Job
  pub session : Session
  pub triage : Triage

abbrev pub wanted : Option SourceKind → SourceKind → Bool
wanted none kind = true
wanted (some wanted_kind) kind = same_kind wanted_kind kind

abbrev pub claimable : Claim → Job → Bool
claimable claim job = job_waits job.status && wanted claim.source_kind job.source_kind

abbrev pub created_before : Job → Job → Bool
created_before x y = then_by x.created_at y.created_at (ltb x.job_id y.job_id)

-- the queued rows of the wanted kind, oldest first
abbrev pub queue : Claim → Store → List Job
queue claim s = sort_by created_before (select (claimable claim) s.jobs)

abbrev pub take_job : Claim → Job → Job
take_job claim job = record job {
  status = job_running;
  lease_owner = some claim.owner_id;
  lease_expires_at = some claim.lease_expires_at;
  attempt_count = suc job.attempt_count;
  updated_at = claim.now;
}

abbrev pub start_run : SourceRun → SourceRun
start_run run = record run { status = running; warning_code = none }

abbrev pub claim_job : Claim → Job → Store → Store
claim_job claim row s = append_event (job_scope row) source_run_started (
    set_run row.source_run_id start_run
      (set_jobs (λ job. job.job_id == row.job_id && job_waits job.status) (take_job claim) s))

-- `_triage_by_session(…)[…]` and `_session_from_row` raise when the row is missing.
abbrev pub context_of :
    Store → Option Job → Option Session → Option Triage → Outcome (Option Context)
context_of s (some job) (some session) (some triage) =
    (ok (some (record { job = job; session = session; triage = triage })), s)
context_of s _ _ _ = (err key_error, s)

abbrev pub session_of : RowId → Store → Option Session
session_of session_id s = find (λ session. session.session_id == session_id) s.sessions

abbrev pub claimed_context : Job → Store → Outcome (Option Context)
claimed_context row s =
    context_of s (job_of row.job_id s) (session_of row.session_id s) (triage_of row.session_id s)

abbrev pub claim_found : Claim → Store → Option Job → Outcome (Option Context)
claim_found claim s none = (ok none, s)
claim_found claim s (some row) =
    if any (λ job. job.job_id == row.job_id && job_waits job.status) s.jobs
    then claimed_context row (claim_job claim row s)
    else (ok none, s)

unfoldable pub claim_next_source_run_job : Claim → Store → Outcome (Option Context)
claim_next_source_run_job claim s = transaction s (claim_found claim s (first (queue claim s)))

abbrev pub leased_by : RowId → RowId → Job → Bool
leased_by job_id owner_id job =
    job.job_id == job_id && (is_id job.lease_owner owner_id && job_runs job.status)

abbrev pub extend : ℕ → ℕ → Job → Job
extend lease_expires_at now job = record job {
  lease_expires_at = some lease_expires_at;
  updated_at = now;
}

-- The row count of the UPDATE tells whether the lease was extended.
unfoldable pub extend_source_run_job_lease : RowId → RowId → ℕ → ℕ → Store → Bool × Store
extend_source_run_job_lease job_id owner_id lease_expires_at now s = (
  any (leased_by job_id owner_id) s.jobs,
  set_jobs (leased_by job_id owner_id) (extend lease_expires_at now) s,
)
