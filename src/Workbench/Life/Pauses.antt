-- ===== src/Workbench/Life/Pauses.antt =====
-- What happens to runs without a change of their jobs follows the life cycle: a probe blocks them,
-- a login releases them, and a new session brings its own.
use cv_match.Common.{
  ℕ, zero, suc, ◌≡◌, refl, ◌∙◌, sym, ap, inl, inr, Bool, true, false, ◌&&◌, ◌||◌, some, arith, ◌==◌,
  All, All-map, All-any, Option-cases, Bool-cases, find-eq-some, String,
}
use cv_match.Common.Updates.{count, count_of_all, update_where}
use cv_match.Workbench.Tables.{
  RowId, RunStatus, queued, blocked, running, completed, failed, SourceRun, Store, is_terminal,
  is_active, is_queued, is_blocked, is_running, User,
}
use cv_match.Workbench.Events.{append_event}
use cv_match.Workbench.Jobs.{owned_run, owns_run}
use cv_match.Workbench.Jobs.Endings.{
  has_active_job, block_run, block_where, unblockable, block_for_start_probe,
}
use cv_match.Workbench.Connections.{unblock_run, unblock_runs}
use cv_match.Workbench.Life.{
  Phase, idle, held, here, next, hold, release, phase_of, waits_for, runs_for, IsSettled, Lives,
  Reaches,
}
use cv_match.Workbench.Life.Evolution.{
  IsSound, Follows, Follows-refl, Follows-runs, IsRow, rows-IsRow,
}

unblock_counts : (p : Phase) (w r : ℕ) → phase_of blocked w r ≡ some p → Reaches p queued w r
unblock_counts p zero zero h =
    let e : p ≡ held = ground arith in rw e (idle, (refl, next release here))
unblock_counts p zero (suc r) h = absurd (ground arith)
unblock_counts p (suc w) r h = absurd (ground arith)

-- A login releases blocked runs.
pub unblock_runs-Follows :
    (p : SourceRun → Bool) (s t : Store)
    → t.jobs ≡ s.jobs
    → t.runs ≡ (unblock_runs p s).runs
    → IsSound s
    → Follows s t
unblock_runs-Follows p s t jobs runs v =
    Follows-runs (λ run. Unit {0}) s t (λ run. is_blocked run.status && p run) unblock_run jobs runs
      (λ run. refl) hit v (All-map s.runs (λ run h. (h, tt)) v.settled)
  where
    hit :
        (run : SourceRun)
        → (is_blocked run.status && p run) ≡ true
        → IsSettled s.jobs run × Unit {0}
        → Lives s.jobs s.jobs run (unblock_run run)
    hit run e ((q, h), _) = record {
      same_id = refl;
      before = q;
      after = reached.0;
      in_before = h;
      in_after = reached.1.0;
      way = reached.1.1;
    }
      where
        status : run.status ≡ blocked
        status = ground arith

        reached :
            Reaches q queued
              (count (waits_for run.source_run_id) s.jobs)
              (count (runs_for run.source_run_id) s.jobs)
        reached = unblock_counts q _ _ (rw (← status) h)

paused :
    (status : RunStatus)
    → is_running status ≡ false
    → is_terminal status ≡ false
    → (is_blocked status || is_queued status) ≡ true
paused queued a b = refl
paused blocked a b = refl
paused running a b = absurd (ground arith)
paused completed a b = absurd (ground arith)
paused failed a b = absurd (ground arith)

block_counts :
    (p : Phase) (status : RunStatus) (w r : ℕ)
    → phase_of status w r ≡ some p
    → (is_blocked status || is_queued status) ≡ true
    → (is_queued status ≡ true → (w ≡ 0) × (r ≡ 0))
    → Reaches p blocked w r
block_counts p blocked w r h e none_active = (p, (h, here))
block_counts p queued w r h e none_active =
    let (w0, r0) = none_active refl in
    let h' : phase_of queued 0 0 ≡ some p =
      ap (λ k. phase_of queued k 0) (sym w0) ∙ (ap (phase_of queued w) (sym r0) ∙ h) in
    let e : p ≡ idle = ground arith in rw (e, w0, r0) (held, (refl, next hold here))
block_counts p running w r h e none_active = absurd (ground arith)
block_counts p completed w r h e none_active = absurd (ground arith)
block_counts p failed w r h e none_active = absurd (ground arith)

block_row-Follows :
    (user : User) (session_id source_run_id : RowId) (warning_code : String) (row : SourceRun)
    (s t : Store)
    → t.jobs ≡ s.jobs
    → t.runs ≡ update_where (block_where session_id source_run_id) (block_run warning_code) s.runs
    → owned_run user session_id source_run_id s ≡ some row
    → unblockable row (has_active_job source_run_id s) ≡ false
    → IsSound s
    → Follows s t
block_row-Follows user session_id source_run_id warning_code row s t jobs runs found may v =
    Follows-runs (λ run. run.source_run_id ≡ row.source_run_id → run ≡ row) s t
      (block_where session_id source_run_id) (block_run warning_code) jobs runs (λ run. refl) hit v
      (rows-IsRow s (owns_run user session_id source_run_id s) row v found)
  where
    hit :
        (run : SourceRun)
        → block_where session_id source_run_id run ≡ true
        → IsRow s row run
        → Lives s.jobs s.jobs run (block_run warning_code run)
    hit run e ((q, h), only) = record {
      same_id = refl;
      before = q;
      after = reached.0;
      in_before = h;
      in_after = reached.1.0;
      way = reached.1.1;
    }
      where
        same : run ≡ row
        same = only (
            ground
              (arith, find-eq-some (owns_run user session_id source_run_id s) s.runs row found))

        free :
            is_queued run.status ≡ true
            → All
                (λ job. (job.source_run_id == source_run_id && is_active job.status) ≡ false)
                s.jobs
        free e' =
            let e'' : is_queued row.status ≡ true = ap (λ x. is_queued x.status) (sym same) ∙ e' in
            All-any _ s.jobs (ground arith)

        reached :
            Reaches q blocked
              (count (waits_for run.source_run_id) s.jobs)
              (count (runs_for run.source_run_id) s.jobs)
        reached =
            block_counts q run.status _ _ h (paused run.status (ground arith) (ground arith)) λ e'.
              (
                count_of_all _ s.jobs (All-map s.jobs (λ job k. ground arith) (free e')),
                count_of_all _ s.jobs (All-map s.jobs (λ job k. ground arith) (free e')),
              )

pub block-Follows :
    (user : User) (session_id source_run_id : RowId) (warning_code : String) (s : Store)
    → IsSound s
    → Follows s (block_for_start_probe user session_id source_run_id warning_code s).1
unfolding block_for_start_probe append_event
block-Follows user session_id source_run_id warning_code s v =
    elim (Option-cases (owned_run user session_id source_run_id s)) [
      | inl e ↦ rw e (Follows-refl s v)
      | inr (row, e) ↦ rw e (elim (Bool-cases (unblockable row (has_active_job source_run_id s))) [
        | inl stays ↦ rw stays (Follows-refl s v)
        | inr may ↦
            let step = block_row-Follows user session_id source_run_id warning_code row s in
            rw may (step _ refl refl e may v)
      ])
    ]
