-- ===== src/Workbench/Life/Ends.antt =====
-- The ends of jobs follow the life cycle.
use cv_match.Common.{
  ℕ, ◌≡◌, refl, ◌∙◌, inl, inr, false, Option, none, some, arith, ◌==◌, All, All-map, find,
  Option-cases, Bool-cases, find-eq-some, find-All, ap,
}
use cv_match.Common.Updates.{has_key_of, update_where, update_where_twice}
use cv_match.Text.{Text, is_blank, strip}
use cv_match.Workbench.Tables.{RowId, SourceRun, Job, Store, job_key, job_runs, is_active}
use cv_match.Workbench.Events.{append_event}
use cv_match.Workbench.Jobs.Claims.{Context}
use cv_match.Workbench.Jobs.{job_of}
use cv_match.Workbench.Jobs.Endings.{
  Ending, end_job, end_run, finish_row, finish_source_run_job, completion, CtsArtifacts, count_run,
  complete_cts_row, complete_cts_found, complete_cts_source_run, validate_runtime_run_id,
  attach_runtime_run_id, attach, attach_where, attach_any, validate_any, link_row,
}
use cv_match.Workbench.Life.Evolution.{
  IsSound, Follows, Follows-refl, Follows-trans, Follows-still, Follows-runs, Lives-stays,
}
use cv_match.Workbench.Life.Turns.{Turn, turned, turned-Follows, end-Reaches, IsEnd}
use cv_match.Workbench.Life.Leases.{IsHeld}
use cv_match.Workbench.Life.Openings.{transaction-Follows, proceed_rule}

-- An ending that an operation may choose.
abbrev pub IsEnding : Ending → Type 0
IsEnding ending = IsEnd ending.run_status × (is_active ending.job_status ≡ false)

-- The turn of a job that ends, and what its run takes before.
module _ (ending : Ending) (now : ℕ) (prepare : SourceRun → SourceRun) where
  abbrev ending_turn : ((run : SourceRun) → (prepare run).source_run_id ≡ run.source_run_id) → Turn
  ending_turn keeps = record {
    change = end_job ending now;
    change_run = λ run. end_run ending (prepare run);
    status = ending.run_status;
    keeps_id = λ job. refl;
    keeps_run = λ job. refl;
    keeps_run_id = keeps;
    sets = λ run. refl;
  }

  pub ended-Follows :
      (keeps : (run : SourceRun) → (prepare run).source_run_id ≡ run.source_run_id) (row : Job)
      (s t : Store)
      → IsEnding ending
      → IsSound s
      → IsHeld (λ job. job_runs job.status) s row
      → t.jobs ≡ update_where (λ job. job.job_id == row.job_id) (end_job ending now) s.jobs
      → t.runs
        ≡ update_where
            (λ run. run.source_run_id == row.source_run_id)
            (λ run. end_run ending (prepare run))
            s.runs
      → Follows s t
  ended-Follows keeps row s t legal v (found, runs_now) jobs runs =
      Follows-trans s _ t turn (Follows-still _ t runs jobs turn.sound)
    where
      turn : Follows s (turned (ending_turn keeps) row (λ job. job.job_id == row.job_id) s t.events)
      turn =
          turned-Follows (ending_turn keeps) row (λ job. job.job_id == row.job_id) (ground arith)
            (λ y h. ground arith) s v found
            (λ p status w r w' r' h ew er.
              end-Reaches ending.run_status legal.0 p status w r w' r' h (ground arith)
                (ground arith))
            t.events

pub finish_row-Follows :
    (ending : Ending) (now : ℕ) (row : Job) (s : Store)
    → IsEnding ending
    → IsSound s
    → IsHeld (λ job. job_runs job.status) s row
    → Follows s (finish_row ending now row s)
unfolding finish_row append_event
finish_row-Follows ending now row s legal v h =
    ended-Follows ending now (λ run. run) (λ run. refl) row s (finish_row ending now row s) legal v
      h refl refl

pub held :
    (job_id : RowId) (row : Job) (s : Store)
    → job_of job_id s ≡ some row
    → find (has_key_of job_key row.job_id) s.jobs ≡ some row
held job_id row s e =
    let id : row.job_id ≡ job_id =
      ground (arith, find-eq-some (λ job. job.job_id == job_id) s.jobs row e) in
    ap (λ k. find (has_key_of job_key k) s.jobs) id ∙ e

pub finish-Follows :
    (ending : Ending) (now : ℕ) (job_id : RowId) (s : Store)
    → IsEnding ending
    → IsSound s
    → Follows s (finish_source_run_job ending now job_id s)
unfolding finish_source_run_job
finish-Follows ending now job_id s legal v = elim (Option-cases (job_of job_id s)) [
  | inl e ↦ rw e (Follows-refl s v)
  | inr (row, e) ↦ rw e (elim (Bool-cases (job_runs row.status)) [
    | inl runs ↦ rw runs (finish_row-Follows ending now row s legal v (held job_id row s e, runs))
    | inr stops ↦ rw stops (Follows-refl s v)
  ])
]

-- Validation changes nothing.
validate_still :
    (context : Context) (id : Text) (s : Store) → (validate_runtime_run_id context id s).1 ≡ s
unfolding validate_runtime_run_id
validate_still context id s = elim (Bool-cases (is_blank (strip id))) [
  | inl e ↦ rw e refl
  | inr e ↦ rw e (elim (Option-cases (link_row context s)) [
    | inl e' ↦ rw e' refl
    | inr (run, e') ↦ rw e' (ground arith)
  ])
]

-- A store that followed with the same jobs.
abbrev pub Attached : Store → Store → Type 0
Attached s t = Follows s t × (t.jobs ≡ s.jobs)

pub Attached-refl : (s : Store) → IsSound s → Attached s s
Attached-refl s v = (Follows-refl s v, refl)

pub attach_run :
    (context : Context) (id : Text) (s : Store)
    → IsSound s
    → Attached s (attach_runtime_run_id context id s).1
unfolding attach_runtime_run_id
attach_run context id s v =
    proceed_rule (λ t. Attached s t) (λ t. Attached s t) (validate_runtime_run_id context id s) _
      (rw (validate_still context id s) (Attached-refl s v)) (λ t k. k)
      λ _ t (f, same). (
        Follows-trans s t _ f (
            Follows-runs (λ run. Unit {0}) t _ (attach_where context) (attach id) refl refl
              (λ run. refl) (λ run e h. Lives-stays run (attach id run) h.0 refl refl) f.sound
              (All-map t.runs (λ run h. (h, tt)) f.sound.settled)),
        same,
      )

attach_any_run :
    (context : Context) (id : Option Text) (s : Store)
    → IsSound s
    → Attached s (attach_any context s id).1
attach_any_run context none s v = Attached-refl s v
attach_any_run context (some id) s v = attach_run context id s v

validate_any-Follows :
    (context : Context) (id : Option Text) (s : Store)
    → IsSound s
    → Follows s (validate_any context s id).1
validate_any-Follows context none s v = Follows-refl s v
validate_any-Follows context (some id) s v = rw (validate_still context id s) (Follows-refl s v)

-- The context is that of the job's row: it has the row's run.
abbrev pub Fits : Context → Store → Type 0
Fits context s =
    All (λ row. row.job_id ≡ context.job.job_id → row.source_run_id ≡ context.job.source_run_id)
      s.jobs

complete_row-Follows :
    (artifacts : CtsArtifacts) (now : ℕ) (context : Context) (row : Job) (s : Store)
    → row.source_run_id ≡ context.job.source_run_id
    → IsSound s
    → IsHeld (λ job. job_runs job.status) s row
    → Follows s (complete_cts_row artifacts now context row s)
unfolding finish_row append_event
complete_row-Follows artifacts now context row s same v h =
    ended-Follows completion now (count_run artifacts) (λ run. refl) row s _ (tt, refl) v h refl
      (rw same (
        update_where_twice (λ run. run.source_run_id == context.job.source_run_id)
          (count_run artifacts) (end_run completion) (λ run. refl) s.runs))

pub complete_cts-Follows :
    (artifacts : CtsArtifacts) (now : ℕ) (context : Context) (s : Store)
    → Fits context s
    → IsSound s
    → Follows s (complete_cts_source_run artifacts now context s).1
unfolding complete_cts_source_run
complete_cts-Follows artifacts now context s fits v =
    transaction-Follows s (complete_cts_found artifacts now context s (job_of context.job.job_id s))
      v
      (elim (Option-cases (job_of context.job.job_id s)) [
        | inl e ↦ rw e (Follows-refl s v)
        | inr (row, e) ↦ rw e (elim (Bool-cases (job_runs row.status)) [
          | inl runs ↦ rw runs (
              proceed_rule (λ t. Attached s t) (λ t. Follows s t)
                (attach_any context s artifacts.runtime_run_id) _
                (attach_any_run context artifacts.runtime_run_id s v) (λ t k. k.0)
                (λ _ t (f, jobs). Follows-trans s t _ f (
                  complete_row-Follows artifacts now context row t (run_of_row row e) f.sound
                    (rw jobs (held context.job.job_id row s e), runs))))
          | inr stops ↦ rw stops (validate_any-Follows context artifacts.runtime_run_id s v)
        ])
      ])
  where
    run_of_row :
        (row : Job)
        → job_of context.job.job_id s ≡ some row
        → row.source_run_id ≡ context.job.source_run_id
    run_of_row row e =
        find-All _ (λ job. job.job_id == context.job.job_id) s.jobs fits e
          (ground (arith, find-eq-some (λ job. job.job_id == context.job.job_id) s.jobs row e))
