-- ===== src/Workbench/Life/Steps.antt =====
-- Any sequence of the methods of the store that change the status of a source run or the queue of
-- jobs. What only counts details or repairs a link to a runtime run is no step.
pub mod Finality
use cv_match.Common.{
  ℕ, ◌≤◌, ◌+◌, ◌≡◌, refl, inl, inr, Bool, true, false, ◌&&◌, Option, none, some, List, [], String,
  arith, All, any, Bool-cases, Option-cases, if◌then◌else◌, ◌==◌, ok, err,
}
use cv_match.Common.Updates.{count}
use cv_match.Workbench.Tables.{
  requirement_triage_updated, RowId, Triage, SourceKind, User, Criteria, Connection, SourceRun, Job,
  Store, Outcome, transaction, empty_store, is_active,
}
use cv_match.Workbench.Events.{append_event}
use cv_match.Workbench.Sessions.{
  create_workbench_session, update_requirement_triage, approve_requirement_triage,
  session_exists_for_user, approve_found, need_triage, redrafted, session_scope,
  has_visible_criteria, triage_of,
}
use cv_match.Workbench.Jobs.Starts.{Start, start_source_run_job, start_queued}
use cv_match.Workbench.Jobs.Reconciles.{has_active_source_run_job, reconcile_expired_running_jobs}
use cv_match.Workbench.Jobs.Claims.{
  Claim, claim_next_source_run_job, extend_source_run_job_lease, Context,
}
use cv_match.Workbench.Jobs.{connection_for_user, owned_run}
use cv_match.Workbench.Jobs.Endings.{
  mark_source_run_completed, mark_source_run_failed, CtsArtifacts, complete_cts_source_run,
  attach_runtime_run_id, block_for_start_probe, completion, failure,
}
use cv_match.Workbench.Connections.{
  get_or_create_connection, Account, start_login_handoff, mark_connected,
  mark_connected_without_runs, mark_connected_for_run, mark_login_required, has_connection,
  create_connection, asks, connect_run, owned_liepin, waits_for_login, run_in,
}
use cv_match.Workbench.Life.{Phase}
use cv_match.Workbench.Life.Evolution.{IsSound, Follows, Follows-refl, Follows-trans, Follows-still}
use cv_match.Workbench.Life.Starts.{start_queued-Follows}
use cv_match.Workbench.Life.Leases.{claim_next-Follows, extend_lease-Follows, reconcile-Follows}
use cv_match.Workbench.Life.Pauses.{block-Follows, unblock_runs-Follows}
use cv_match.Workbench.Life.Openings.{create-Follows, transaction-Follows}
use cv_match.Workbench.Life.Ends.{Fits, finish-Follows, complete_cts-Follows, attach_run}
use cv_match.Workbench.Life.Lanes.{complete_lane-Follows}
use cv_match.Workbench.Details.{Desk}
use cv_match.Workbench.Details.Cards.{LaneResult, complete_lane}
use cv_match.Text.{Text}

-- One call of a method, with any arguments, whether it returns or raises. The two completions that
-- are given a context are given one with the run of the context's own job.
pub data Step : Store → Store → Type 0 where
  creates :
      {s : Store} (user : User) (session_id : RowId) (kinds : List (RowId × SourceKind)) (now : ℕ)
      → Step s (create_workbench_session user session_id kinds now s).1
  redrafts :
      {s : Store} (user : User) (session_id : RowId) (criteria : Criteria) (now : ℕ)
      → Step s (update_requirement_triage user session_id criteria now s).1
  approves :
      {s : Store} (user : User) (session_id : RowId) (now : ℕ)
      → Step s (approve_requirement_triage user session_id now s).1
  starts :
      {s : Store} (reconciled_at : ℕ) (req : Start)
      → Step s (start_source_run_job reconciled_at req s).1
  looks :
      {s : Store} (reconciled_at : ℕ) (user : User) (session_id source_run_id : RowId)
      → Step s (has_active_source_run_job reconciled_at user session_id source_run_id s).1
  claims : {s : Store} (claim : Claim) → Step s (claim_next_source_run_job claim s).1
  extends :
      {s : Store} (job_id owner_id : RowId) (lease_expires_at now : ℕ)
      → Step s (extend_source_run_job_lease job_id owner_id lease_expires_at now s).1
  reconciles : {s : Store} (now : ℕ) → Step s (reconcile_expired_running_jobs now s)
  completes :
      {s : Store} (now : ℕ) (job_id : RowId) → Step s (mark_source_run_completed now job_id s)
  fails : {s : Store} (now : ℕ) (job_id : RowId) → Step s (mark_source_run_failed now job_id s)
  completes_cts :
      {s : Store} (artifacts : CtsArtifacts) (now : ℕ) (context : Context)
      → Fits context s
      → Step s (complete_cts_source_run artifacts now context s).1
  ends_lane :
      {s : Store} (d : Desk) (result : LaneResult) (now : ℕ) (context : Context)
      → Fits context s
      → Step s (complete_lane result now context (record d { store = s })).1.store
  attaches :
      {s : Store} (context : Context) (runtime_run_id : Text)
      → Step s (transaction s (attach_runtime_run_id context runtime_run_id s)).1
  blocks :
      {s : Store} (user : User) (session_id source_run_id : RowId) (warning_code : String)
      → Step s (block_for_start_probe user session_id source_run_id warning_code s).1
  registers :
      {s : Store} (user : User) (connection_id : RowId) (now : ℕ)
      → Step s (get_or_create_connection user connection_id now s).1
  hands_over :
      {s : Store} (user : User) (connection_id : RowId) (account : Account)
      (warning_code : Option String) (now : ℕ)
      → Step s (start_login_handoff user connection_id account warning_code now s).1
  connects :
      {s : Store} (user : User) (connection_id : RowId) (account : Account) (now : ℕ)
      → Step s (mark_connected user connection_id account now s).1
  connects_alone :
      {s : Store} (user : User) (connection_id : RowId) (account : Account) (now : ℕ)
      → Step s (mark_connected_without_runs user connection_id account now s).1
  connects_run :
      {s : Store} (user : User) (connection_id session_id source_run_id : RowId) (account : Account)
      (now : ℕ)
      → Step s (mark_connected_for_run user connection_id session_id source_run_id account now s).1
  asks_login :
      {s : Store} (user : User) (connection_id : RowId) (warning_code : String)
      (session_id source_run_id : Option RowId) (now : ℕ)
      → Step s
          (mark_login_required user connection_id warning_code session_id source_run_id now s).1

pub data Reach (s : Store) : Store → Type 0 where
  here : Reach s s
  next : {t u : Store} → Reach s t → Step t u → Reach s u

abbrev choose : {A : Type 0} → Bool → A → A → Store → Store → A × Store
choose c a b s t = if c then (a, t) else (b, s)

-- A choice between a change of other tables and none.
either-Follows :
    {A : Type 0} (c : Bool) (s t : Store) (a b : A)
    → t.runs ≡ s.runs
    → t.jobs ≡ s.jobs
    → IsSound s
    → Follows s (choose c a b s t).1
either-Follows true s t a b runs jobs v = Follows-still s t runs jobs v
either-Follows false s t a b runs jobs v = Follows-refl s v

need_triage-Follows :
    (s t : Store) (triage : Option Triage)
    → IsSound s
    → Follows s t
    → Follows s (transaction s (need_triage triage t)).1
need_triage-Follows s t none v f = Follows-refl s v
need_triage-Follows s t (some triage) v f = f

redraft-Follows :
    (user : User) (session_id : RowId) (criteria : Criteria) (now : ℕ) (s : Store)
    → IsSound s
    → Follows s (update_requirement_triage user session_id criteria now s).1
unfolding update_requirement_triage append_event
redraft-Follows user session_id criteria now s v =
    elim (Bool-cases (session_exists_for_user user session_id s)) [
      | inr e ↦ rw e (Follows-refl s v)
      | inl e ↦ rw e (
          need_triage-Follows s
            (append_event (session_scope user session_id) requirement_triage_updated
              (redrafted user session_id criteria now s))
            (triage_of session_id (redrafted user session_id criteria now s)) v
            (Follows-still s _ refl refl v))
    ]

approve-Follows :
    (user : User) (session_id : RowId) (now : ℕ) (s : Store)
    → IsSound s
    → Follows s (approve_requirement_triage user session_id now s).1
unfolding approve_requirement_triage append_event
approve-Follows user session_id now s v =
    elim (Bool-cases (session_exists_for_user user session_id s)) [
      | inr e ↦ rw e (Follows-refl s v)
      | inl e ↦ rw e (elim (Option-cases (triage_of session_id s)) [
        | inl e' ↦ rw e' (Follows-refl s v)
        | inr (triage, e') ↦ rw e' (
            transaction-Follows s (approve_found user session_id now s (some triage)) v
              (elim (Bool-cases (has_visible_criteria triage.criteria)) [
                | inl some_criteria ↦ rw some_criteria (Follows-still s _ refl refl v)
                | inr no_criteria ↦ rw no_criteria (Follows-refl s v)
              ]))
      ])
    ]

register-Follows :
    (user : User) (connection_id : RowId) (now : ℕ) (s : Store)
    → IsSound s
    → Follows s (get_or_create_connection user connection_id now s).1
unfolding get_or_create_connection append_event
register-Follows user connection_id now s v = elim (Option-cases (connection_for_user user s)) [
  | inr (connection, e) ↦ rw e (Follows-refl s v)
  | inl e ↦ rw e (
      transaction-Follows s (create_connection user connection_id now s none) v
        (elim (Bool-cases (any (λ other. other.connection_id == connection_id) s.connections)) [
          | inl taken ↦ rw taken (Follows-refl s v)
          | inr fresh ↦ rw fresh (Follows-still s _ refl refl v)
        ]))
]

connect-Follows :
    (user : User) (connection_id : RowId) (account : Account) (now : ℕ) (s : Store)
    → IsSound s
    → Follows s (mark_connected user connection_id account now s).1
unfolding mark_connected append_event
connect-Follows user connection_id account now s v =
    elim (Bool-cases (has_connection user connection_id s)) [
      | inl e ↦ rw e (unblock_runs-Follows (waits_for_login user) s _ refl refl v)
      | inr e ↦ rw e (Follows-refl s v)
    ]

connect_run-Follows :
    (user : User) (connection_id session_id source_run_id : RowId) (account : Account) (now : ℕ)
    (s : Store)
    → IsSound s
    → Follows s (mark_connected_for_run user connection_id session_id source_run_id account now s).1
unfolding mark_connected_for_run append_event
connect_run-Follows user connection_id session_id source_run_id account now s v =
    elim (Bool-cases (has_connection user connection_id s)) [
      | inr e ↦ rw e (Follows-refl s v)
      | inl e ↦
          rw e (elim (Option-cases (owned_liepin (owned_run user session_id source_run_id s))) [
            | inl e' ↦ rw e' (Follows-refl s v)
            | inr (run, e') ↦
                rw e' (unblock_runs-Follows (run_in source_run_id session_id) s _ refl refl v)
          ])
    ]

start-Follows :
    (reconciled_at : ℕ) (req : Start) (s : Store)
    → IsSound s
    → Follows s (start_source_run_job reconciled_at req s).1
unfolding start_source_run_job
start-Follows reconciled_at req s v =
    let first_part = reconcile-Follows reconciled_at s v in
    Follows-trans s (reconcile_expired_running_jobs reconciled_at s) _ first_part
      (start_queued-Follows req (reconcile_expired_running_jobs reconciled_at s) first_part.sound)

-- In a sound store, every method that changes the status of a source run or the queue of jobs, the
-- end of a Liepin card search included, moves every run along edges of the life cycle or leaves it
-- in its phase, drops no run, and leads to a sound store: one where no two runs and no two jobs
-- have one id, every job has its run, and every run is in a phase. A completion with a context is
-- given one with the run of the context's own job.
pub Step-Follows : {s t : Store} → Step s t → IsSound s → Follows s t
unfolding has_active_source_run_job start_login_handoff mark_connected_without_runs
    mark_login_required mark_source_run_completed mark_source_run_failed append_event
Step-Follows {s} (creates user session_id kinds now) v =
    create-Follows user session_id kinds now s v
Step-Follows {s} (redrafts user session_id criteria now) v =
    redraft-Follows user session_id criteria now s v
Step-Follows {s} (approves user session_id now) v = approve-Follows user session_id now s v
Step-Follows {s} (starts reconciled_at req) v = start-Follows reconciled_at req s v
Step-Follows {s} (looks reconciled_at user session_id source_run_id) v =
    reconcile-Follows reconciled_at s v
Step-Follows {s} (claims claim) v = claim_next-Follows claim s v
Step-Follows {s} (extends job_id owner_id lease_expires_at now) v =
    extend_lease-Follows job_id owner_id lease_expires_at now s v
Step-Follows {s} (reconciles now) v = reconcile-Follows now s v
Step-Follows {s} (completes now job_id) v = finish-Follows completion now job_id s (tt, refl) v
Step-Follows {s} (fails now job_id) v = finish-Follows failure now job_id s (tt, refl) v
Step-Follows {s} (completes_cts artifacts now context fits) v =
    complete_cts-Follows artifacts now context s fits v
Step-Follows {s} (ends_lane d result now context fits) v =
    complete_lane-Follows result now context (record d { store = s }) fits v
Step-Follows {s} (attaches context runtime_run_id) v =
    transaction-Follows s (attach_runtime_run_id context runtime_run_id s) v
      (attach_run context runtime_run_id s v).0
Step-Follows {s} (blocks user session_id source_run_id warning_code) v =
    block-Follows user session_id source_run_id warning_code s v
Step-Follows {s} (registers user connection_id now) v = register-Follows user connection_id now s v
Step-Follows {s} (hands_over user connection_id account warning_code now) v =
    either-Follows (has_connection user connection_id s) s _ true false refl refl v
Step-Follows {s} (connects user connection_id account now) v =
    connect-Follows user connection_id account now s v
Step-Follows {s} (connects_alone user connection_id account now) v =
    either-Follows (has_connection user connection_id s) s _ true false refl refl v
Step-Follows {s} (connects_run user connection_id session_id source_run_id account now) v =
    connect_run-Follows user connection_id session_id source_run_id account now s v
Step-Follows {s} (asks_login user connection_id warning_code session_id source_run_id now) v =
    either-Follows (has_connection user connection_id s && asks user session_id source_run_id s) s _
      true false refl refl v
