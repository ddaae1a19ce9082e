-- ===== src/Workbench/Life.antt =====
-- The life cycle of a source run, the specification that the operations of the workbench refine:
-- the phase of a run by its status and by its jobs in the queue, and the edges between phases.
pub mod Evolution
pub mod Starts
pub mod Turns
pub mod Pauses
pub mod Leases
pub mod Ends
pub mod Openings
pub mod Lanes
pub mod Steps
use cv_match.Common.{ℕ, zero, suc, Bool, ◌&&◌, ◌==◌, Option, none, some, List, ◌≡◌, refl, arith}
use cv_match.Common.Updates.{count}
use cv_match.Workbench.Tables.{
  RowId, RunStatus, queued, blocked, running, completed, failed, SourceRun, Job, job_waits,
  job_runs,
}

pub data Phase : Type 0 where
  idle held waiting working finished broken : Phase

infix 40 ◌⟶◌ ◌⟶*◌
pub data ◌⟶◌ : Phase → Phase → Type 0 where
  start : idle ⟶ waiting
  restart : held ⟶ waiting
  hold : idle ⟶ held
  release : held ⟶ idle
  claim : waiting ⟶ working
  complete : working ⟶ finished
  fail : working ⟶ broken
  interrupt : working ⟶ held

pub data ◌⟶*◌ : Phase → Phase → Type 0 where
  here : {p : Phase} → p ⟶* p
  next : {p q r : Phase} → p ⟶ q → q ⟶* r → p ⟶* r

pub ⟶*_trans : {p q r : Phase} → p ⟶* q → q ⟶* r → p ⟶* r
⟶*_trans here b = b
⟶*_trans (next e a) b = next e (⟶*_trans a b)

abbrev pub waits_for : RowId → Job → Bool
waits_for source_run_id job = job.source_run_id == source_run_id && job_waits job.status

abbrev pub runs_for : RowId → Job → Bool
runs_for source_run_id job = job.source_run_id == source_run_id && job_runs job.status

-- The status of a run, and how many of its jobs are queued and how many run. Any other
-- combination is a run in no phase.
abbrev pub phase_of : RunStatus → ℕ → ℕ → Option Phase
phase_of queued zero zero = some idle
phase_of queued (suc zero) zero = some waiting
phase_of blocked zero zero = some held
phase_of running zero (suc zero) = some working
phase_of completed zero zero = some finished
phase_of failed zero zero = some broken
phase_of _ _ _ = none

abbrev pub status_of : Phase → RunStatus
status_of idle = queued
status_of held = blocked
status_of waiting = queued
status_of working = running
status_of finished = completed
status_of broken = failed

abbrev pub waiting_in : Phase → ℕ
waiting_in waiting = 1
waiting_in _ = 0

abbrev pub running_in : Phase → ℕ
running_in working = 1
running_in _ = 0

-- A phase fixes the status and the counts.
pub phase_shape :
    (p : Phase) (status : RunStatus) (w r : ℕ)
    → phase_of status w r ≡ some p
    → (status ≡ status_of p) × ((w ≡ waiting_in p) × (r ≡ running_in p))
phase_shape p queued zero zero h = let e : idle ≡ p = ground arith in rw (← e) (refl, (refl, refl))
phase_shape p queued zero (suc r) h = absurd (ground arith)
phase_shape p queued (suc zero) zero h =
    let e : waiting ≡ p = ground arith in rw (← e) (refl, (refl, refl))
phase_shape p queued (suc zero) (suc r) h = absurd (ground arith)
phase_shape p queued (suc (suc w)) r h = absurd (ground arith)
phase_shape p blocked zero zero h = let e : held ≡ p = ground arith in rw (← e) (refl, (refl, refl))
phase_shape p blocked zero (suc r) h = absurd (ground arith)
phase_shape p blocked (suc w) r h = absurd (ground arith)
phase_shape p running zero zero h = absurd (ground arith)
phase_shape p running zero (suc zero) h =
    let e : working ≡ p = ground arith in rw (← e) (refl, (refl, refl))
phase_shape p running zero (suc (suc r)) h = absurd (ground arith)
phase_shape p running (suc w) r h = absurd (ground arith)
phase_shape p completed zero zero h =
    let e : finished ≡ p = ground arith in rw (← e) (refl, (refl, refl))
phase_shape p completed zero (suc r) h = absurd (ground arith)
phase_shape p completed (suc w) r h = absurd (ground arith)
phase_shape p failed zero zero h =
    let e : broken ≡ p = ground arith in rw (← e) (refl, (refl, refl))
phase_shape p failed zero (suc r) h = absurd (ground arith)
phase_shape p failed (suc w) r h = absurd (ground arith)

abbrev pub phase : List Job → SourceRun → Option Phase
phase jobs run =
    phase_of run.status (count (waits_for run.source_run_id) jobs)
      (count (runs_for run.source_run_id) jobs)

-- The run is in a phase, and so has one active job at most.
abbrev pub IsSettled : List Job → SourceRun → Type 0
IsSettled jobs run = (p : Phase) × (phase jobs run ≡ some p)

-- The run went from one phase to another, over edges.
pub record Lives (jobs jobs' : List Job) (run run' : SourceRun) : Type 0 where
  pub same_id : run'.source_run_id ≡ run.source_run_id
  pub before : Phase
  pub after : Phase
  pub in_before : phase jobs run ≡ some before
  pub in_after : phase jobs' run' ≡ some after
  pub way : before ⟶* after

-- A phase that a run reaches over edges from `p`, with its new status and counts.
abbrev pub Reaches : Phase → RunStatus → ℕ → ℕ → Type 0
Reaches p status waiting_count running_count =
    (q : Phase) × ((phase_of status waiting_count running_count ≡ some q) × (p ⟶* q))
