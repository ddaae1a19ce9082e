-- ===== src/Workbench/Life/Turns.antt =====
-- A transaction that changes one job and the run of that job.
use cv_match.Common.{ℕ, suc, ◌+◌, ◌≡◌, refl, Bool, true, false, some, List, arith, ◌==◌, find}
use cv_match.Common.Updates.{
  update_where, update_where-All, count, bit, has_key_of, update_where-IsKeyed, count-update_where,
}
use cv_match.Workbench.Tables.{
  RunStatus, queued, blocked, running, completed, failed, SourceRun, Job, Event, Store, run_key,
  job_key, job_waits, job_runs,
}
use cv_match.Workbench.Life.{
  Phase, held, waiting, working, finished, broken, here, next, claim, complete, fail, interrupt,
  phase, phase_of, phase_shape, waits_for, runs_for, IsSettled, Lives, Reaches,
}
use cv_match.Workbench.Life.Evolution.{
  IsSound, IsLinked, update_where-IsLinked, Follows, Follows-of, Evolves-update_where, Lives-stays,
}

-- How the counts of a run change with a job of it.
pub record Turn : Type 0 where
  pub change : Job → Job
  pub change_run : SourceRun → SourceRun
  pub status : RunStatus
  pub keeps_id : (job : Job) → (change job).job_id ≡ job.job_id
  pub keeps_run : (job : Job) → (change job).source_run_id ≡ job.source_run_id
  pub keeps_run_id : (run : SourceRun) → (change_run run).source_run_id ≡ run.source_run_id
  pub sets : (run : SourceRun) → (change_run run).status ≡ status

-- A turn of this job leads over edges.
abbrev pub IsLegal : Turn → Job → Type 0
IsLegal turn job =
    (p : Phase) (status : RunStatus) (w r w' r' : ℕ)
    → phase_of status w r ≡ some p
    → w' + bit (job_waits job.status) ≡ w + bit (job_waits (turn.change job).status)
    → r' + bit (job_runs job.status) ≡ r + bit (job_runs (turn.change job).status)
    → Reaches p turn.status w' r'

module _ (turn : Turn) (job : Job) (hits : Job → Bool) where
  abbrev pub turned : Store → List Event → Store
  turned s events = record s {
    jobs = update_where hits turn.change s.jobs;
    runs = update_where (λ run. run.source_run_id == job.source_run_id) turn.change_run s.runs;
    events = events;
  }

  module _ (hit : hits job ≡ true) (only : (y : Job) → hits y ≡ true → y.job_id ≡ job.job_id)
      (s : Store) (v : IsSound s)
      (found : find (has_key_of job_key job.job_id) s.jobs ≡ some job) where
    counts :
        (q : Job → Bool)
        → count q (update_where hits turn.change s.jobs) + bit (q job)
          ≡ count q s.jobs + bit (q (turn.change job))
    counts q =
        count-update_where job_key hits turn.change turn.keeps_id q job s.jobs v.jobs_keyed found
          hit only

    moved :
        IsLegal turn job
        → (run : SourceRun) → (run.source_run_id == job.source_run_id) ≡ true
        → IsSettled s.jobs run
        → Lives s.jobs (update_where hits turn.change s.jobs) run (turn.change_run run)
    moved legal run e (p, h) = record {
      same_id = turn.keeps_run_id run;
      before = p;
      after = reached.0;
      in_before = h;
      in_after = rw (turn.sets run, turn.keeps_run_id run) reached.1.0;
      way = reached.1.1;
    }
      where
        reached :
            Reaches p turn.status
              (count (waits_for run.source_run_id) (update_where hits turn.change s.jobs))
              (count (runs_for run.source_run_id) (update_where hits turn.change s.jobs))
        reached =
            legal p run.status _ _ _ _ h
              (ground (arith, counts (waits_for run.source_run_id), turn.keeps_run job))
              (ground (arith, counts (runs_for run.source_run_id), turn.keeps_run job))

    stayed :
        (run : SourceRun)
        → (run.source_run_id == job.source_run_id) ≡ false
        → IsSettled s.jobs run
        → Lives s.jobs (update_where hits turn.change s.jobs) run run
    stayed run e h =
        let waits : count (waits_for run.source_run_id) (update_where hits turn.change s.jobs)
            ≡ count (waits_for run.source_run_id) s.jobs =
          ground (arith, counts (waits_for run.source_run_id), turn.keeps_run job) in
        let runs : count (runs_for run.source_run_id) (update_where hits turn.change s.jobs)
            ≡ count (runs_for run.source_run_id) s.jobs =
          ground (arith, counts (runs_for run.source_run_id), turn.keeps_run job) in
        Lives-stays run run h refl (rw (waits, runs) refl)

    pub turned-Follows : IsLegal turn job → (events : List Event) → Follows s (turned s events)
    turned-Follows legal events =
        Follows-of s (turned s events)
          (update_where-IsKeyed run_key _ turn.change_run turn.keeps_run_id s.runs v.runs_keyed)
          (update_where-IsKeyed job_key hits turn.change turn.keeps_id s.jobs v.jobs_keyed)
          (update_where-All (IsLinked (turned s events).runs) hits turn.change
            (λ y e h. rw (turn.keeps_run y) h) (λ y e h. h) s.jobs
            (update_where-IsLinked _ turn.change_run turn.keeps_run_id s.runs s.jobs v.linked))
          (Evolves-update_where _ _ turn.change_run (moved legal) stayed s.runs v.settled)

-- What the counts say of the phase.
waiting_phase :
    (p : Phase) (status : RunStatus) (w r : ℕ)
    → phase_of status (suc w) r ≡ some p
    → (p ≡ waiting) × ((w ≡ 0) × (r ≡ 0))
waiting_phase p status w r h = ground (arith, phase_shape p status (suc w) r)

working_phase :
    (p : Phase) (status : RunStatus) (w r : ℕ)
    → phase_of status w (suc r) ≡ some p
    → (p ≡ working) × ((w ≡ 0) × (r ≡ 0))
working_phase p status w r h = ground (arith, phase_shape p status w (suc r))

pub claim_counts :
    (p : Phase) (status : RunStatus) (w r w' r' : ℕ)
    → phase_of status w r ≡ some p
    → w' + 1 ≡ w
    → r' ≡ r + 1
    → Reaches p running w' r'
claim_counts p status w r w' r' h ew er = rw (shape.0, w0, r1) (working, (refl, next claim here))
  where
    h' : phase_of status (suc w') r ≡ some p
    h' = let e : w ≡ suc w' = omega (arith, ew) in rw (← e) h

    shape : (p ≡ waiting) × ((w' ≡ 0) × (r ≡ 0))
    shape = waiting_phase p status w' r h'

    w0 : w' ≡ 0
    w0 = shape.1.0

    r1 : r' ≡ 1
    r1 = omega (arith, er, shape.1.1)

end_counts :
    (p : Phase) (status : RunStatus) (w r w' r' : ℕ)
    → phase_of status w r ≡ some p
    → w' ≡ w
    → r' + 1 ≡ r
    → (p ≡ working) × ((w' ≡ 0) × (r' ≡ 0))
end_counts p status w r w' r' h ew er =
    let e : r ≡ suc r' = omega (arith, er) in
    let h' : phase_of status w (suc r') ≡ some p = rw (← e) h in
    let shape = working_phase p status w r' h' in (shape.0, (omega (arith, shape.1.0), shape.1.1))

-- the statuses in which a run may end a job
abbrev pub IsEnd : RunStatus → Type 0
IsEnd completed = Unit
IsEnd failed = Unit
IsEnd blocked = Unit
IsEnd _ = ⊥

pub end-Reaches :
    (end : RunStatus)
    → IsEnd end
    → (p : Phase) (status : RunStatus) (w r w' r' : ℕ) → phase_of status w r ≡ some p
    → w' ≡ w
    → r' + 1 ≡ r
    → Reaches p end w' r'
end-Reaches end legal p status w r w' r' h ew er =
    let (phase, (w0, r0)) = end_counts p status w r w' r' h ew er in
    rw (phase, w0, r0) (go end legal)
  where
    go : (end : RunStatus) → IsEnd end → Reaches working end 0 0
    go completed l = (finished, (refl, next complete here))
    go failed l = (broken, (refl, next fail here))
    go blocked l = (held, (refl, next interrupt here))
    go queued l = absurd l
    go running l = absurd l
