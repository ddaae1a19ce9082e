-- ===== src/Workbench/Tests.antt =====
-- A session with one CTS run that is started, claimed and completed.
use cv_match.Common.{◌≤◌, ◌≡◌, refl, none, some, [], ◌∷◌, ok, err}
use cv_match.Common.Updates.{count, update_where}
use cv_match.Common.Sorting.{sort_by, insert_sorted}
use cv_match.Workbench.Tables.{
  cts, approved, job_running, completed, User, Criteria, SourceRun, Store, empty_store,
  source_run_already_terminal, not_required, Job,
}
use cv_match.Workbench.Events.{append_event}
use cv_match.Workbench.Sessions.{
  create_workbench_session, update_requirement_triage, approve_requirement_triage, insert_runs,
  has_visible_criteria,
}
use cv_match.Workbench.Jobs.Starts.{Start, start_source_run_job, start_queued, bounded_text}
use cv_match.Workbench.Jobs.Claims.{Claim, Context, claim_next_source_run_job}
use cv_match.Workbench.Jobs.Reconciles.{
  reconcile_expired_running_jobs, reconcile_rows, expire, expired_at, expire_run,
}
use cv_match.Workbench.Jobs.{run_of}
use cv_match.Workbench.Jobs.Endings.{mark_source_run_completed, finish_source_run_job, finish_row}
use cv_match.Workbench.Life.Evolution.{IsSound, Follows}
use cv_match.Workbench.Life.Steps.{
  Step, Reach, Step-Follows, creates, redrafts, approves, starts, claims, completes,
}
use cv_match.Workbench.Life.Steps
use cv_match.Workbench.Life.Steps.Finality.{
  Reach-Follows, empty-IsSound, Reach_final, Reach-one_active, active_for,
}
use cv_match.Workbench.Reconciled.{reconcile-eq_updates, has_expired}
use cv_match.Workbench.Claimed.{Takes, claim_oldest}

abbrev recruiter : User
recruiter = record { user_id = 1; workspace_id = 2 }

abbrev python_only : Criteria
python_only = record {
  must_haves = "Python" ∷ [];
  nice_to_haves = [];
  synonyms = [];
  seniority_filters = [];
  exclusions = [];
  generated_query_hints = [];
}

abbrev request : Start
request = record {
  user = recruiter;
  session_id = 10;
  source_run_id = 20;
  idempotency_key = none;
  job_id = 30;
  now = 103;
}

abbrev runner : Claim
runner = record { owner_id = 5; lease_expires_at = 200; source_kind = some cts; now = 104 }

abbrev opened : Store
opened = (create_workbench_session recruiter 10 ((20, cts) ∷ []) 100 empty_store).1

abbrev released : Store
released =
    (approve_requirement_triage recruiter 10 102
      (update_requirement_triage recruiter 10 python_only 101 opened).1).1

abbrev started : Store
started = (start_source_run_job 103 request released).1

abbrev claimed : Store
claimed = (claim_next_source_run_job runner started).1

abbrev ended : Store
ended = mark_source_run_completed 150 30 claimed

reach_started : Reach empty_store started
reach_started =
    Steps.next
      (Steps.next
        (Steps.next (Steps.next Steps.here (creates recruiter 10 ((20, cts) ∷ []) 100))
          (redrafts recruiter 10 python_only 101))
        (approves recruiter 10 102))
      (starts 103 request)

reach_ended : Reach started ended
reach_ended = Steps.next (Steps.next Steps.here (claims runner)) (completes 150 30)

started-IsSound : IsSound started
started-IsSound = (Reach-Follows reach_started empty-IsSound).sound

claimed-IsSound : IsSound claimed
claimed-IsSound = (Step-Follows (claims runner) started-IsSound).sound

ended-IsSound : IsSound ended
ended-IsSound = (Reach-Follows reach_ended started-IsSound).sound

abbrev completed_run : SourceRun
completed_run = record {
  source_run_id = 20;
  session_id = 10;
  workspace_id = 2;
  user_id = 1;
  source_kind = cts;
  status = completed;
  auth_state = not_required;
  warning_code = none;
  runtime_run_id = none;
  cards_scanned_count = 0;
  unique_candidates_count = 0;
  detail_open_used_count = 0;
  detail_open_blocked_count = 0;
  created_at = 100;
}

ended_run : run_of 20 ended ≡ some completed_run
unfolding create_workbench_session update_requirement_triage approve_requirement_triage
    start_source_run_job start_queued claim_next_source_run_job mark_source_run_completed
    finish_source_run_job finish_row insert_runs has_visible_criteria reconcile_rows
    reconcile_expired_running_jobs bounded_text append_event sort_by insert_sorted
ended_run = refl

-- A completed run is not started again.
started_again : (start_source_run_job 160 request ended).0 ≡ err source_run_already_terminal
unfolding create_workbench_session update_requirement_triage approve_requirement_triage
    start_source_run_job start_queued claim_next_source_run_job mark_source_run_completed
    finish_source_run_job finish_row insert_runs has_visible_criteria reconcile_rows
    reconcile_expired_running_jobs bounded_text append_event sort_by insert_sorted
started_again = refl

Step-Follows_example : Follows started claimed
Step-Follows_example = Step-Follows (claims runner) started-IsSound

Reach-one_active_example : count (active_for 20) started.jobs ≤ 1
Reach-one_active_example = Reach-one_active 20 reach_started

Reach_final_example :
    (run : SourceRun) × ((run_of 20 (start_source_run_job 160 request ended).1 ≡ some run)
      × (run.status ≡ completed))
Reach_final_example =
    Reach_final 20 completed_run ended-IsSound (Steps.next Steps.here (starts 160 request))
      ended_run refl

reconcile-eq_updates_example :
    ((reconcile_expired_running_jobs 300 claimed).jobs
      ≡ update_where (expired_at 300) (expire 300) claimed.jobs)
    × ((reconcile_expired_running_jobs 300 claimed).runs
        ≡ update_where (has_expired 300 claimed.jobs) expire_run claimed.runs)
reconcile-eq_updates_example = reconcile-eq_updates 300 claimed claimed-IsSound.jobs_keyed

abbrev claimed_context : Context
claimed_context = record {
  job = record {
    job_id = 30;
    workspace_id = 2;
    user_id = 1;
    session_id = 10;
    source_run_id = 20;
    source_kind = cts;
    status = job_running;
    lease_owner = some 5;
    lease_expires_at = some 200;
    idempotency_key = none;
    attempt_count = 1;
    created_at = 103;
    updated_at = 104;
  };
  session = record { session_id = 10; workspace_id = 2; user_id = 1 };
  triage = record {
    session_id = 10;
    workspace_id = 2;
    user_id = 1;
    status = approved;
    criteria = python_only;
    updated_at = 102;
    approved_at = some 102;
  };
}

claimed_job : (claim_next_source_run_job runner started).0 ≡ ok (some claimed_context)
unfolding create_workbench_session update_requirement_triage approve_requirement_triage
    start_source_run_job start_queued claim_next_source_run_job insert_runs has_visible_criteria
    reconcile_rows reconcile_expired_running_jobs bounded_text append_event sort_by insert_sorted
claimed_job = refl

claim_oldest_example : (row : Job) × Takes runner started claimed_context row
claim_oldest_example = claim_oldest runner claimed_context started started-IsSound claimed_job
