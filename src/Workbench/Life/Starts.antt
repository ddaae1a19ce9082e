-- ===== src/Workbench/Life/Starts.antt =====
-- A start follows the life cycle: it queues a job only for a run that has none.
use cv_match.Common.{
  ℕ, ◌+◌, ◌≡◌, refl, ◌∙◌, sym, ap, inl, inr, Bool, true, false, ◌&&◌, none, some, List, [], ◌∷◌,
  ◌++◌, arith, ◌==◌, ltb, find, All, All-map, All-append, All-any, select, any, any-select,
  Option-cases, find-eq-some,
}
use cv_match.Common.Updates.{
  count, count_of_all, count-append, IsKeyed-snoc, any_key-update_where, has_key_of,
  update_where-IsKeyed,
}
use cv_match.Common.Sorting.{sort_by, any-sort_by}
use cv_match.Workbench.Tables.{
  RowId, RunStatus, queued, blocked, running, completed, failed, SourceRun, Store, run_key, job_key,
  is_terminal, is_active,
}
use cv_match.Workbench.Events.{append_event}
use cv_match.Workbench.Jobs.Starts.{
  Start, existing_jobs, new_job, queue_run, queue_job, released, start_queued,
}
use cv_match.Workbench.Jobs.{first, owned_run, owns_run}
use cv_match.Workbench.Life.{
  Phase, idle, held, waiting, here, next, start, restart, phase_of, waits_for, runs_for, Lives,
  Reaches,
}
use cv_match.Workbench.Life.Evolution.{
  IsSound, update_where-IsLinked, Follows, Follows-of, Follows-refl, Evolves-update_where,
  Lives-stays, IsRow, rows-IsRow,
}

first-none {ℓ} : {A : Type ℓ} (xs : List A) → first xs ≡ none → xs ≡ []
first-none [] h = refl
first-none (x ∷ xs) h = absurd (ground arith)

-- A sorted selection without a first member selects nothing.
first-sort-select {ℓ} :
    {A : Type ℓ} (before : A → A → Bool) (p : A → Bool) (xs : List A)
    → first (sort_by before (select p xs)) ≡ none
    → any p xs ≡ false
first-sort-select before p xs h =
    sym (any-select p xs)
    ∙ (sym (any-sort_by before p (select p xs))
        ∙ ap (any p) (first-none (sort_by before (select p xs)) h))

start_counts :
    (p : Phase) (status : RunStatus) (w r : ℕ)
    → phase_of status w r ≡ some p
    → is_terminal status ≡ false
    → w ≡ 0
    → r ≡ 0
    → Reaches p queued (w + 1) r
start_counts p status w r h live w0 r0 =
    let h' : phase_of status 0 0 ≡ some p =
      ap (λ k. phase_of status k 0) (sym w0) ∙ (ap (phase_of status w) (sym r0) ∙ h) in
    rw (w0, r0) (go p status h' live)
  where
    go :
        (p : Phase) (status : RunStatus)
        → phase_of status 0 0 ≡ some p
        → is_terminal status ≡ false
        → Reaches p queued 1 0
    go p queued h live = let e : p ≡ idle = ground arith in rw e (waiting, (refl, next start here))
    go p blocked h live =
        let e : p ≡ held = ground arith in rw e (waiting, (refl, next restart here))
    go p running h live = absurd (ground arith)
    go p completed h live = absurd (ground arith)
    go p failed h live = absurd (ground arith)

-- The run has no active job.
abbrev IsFree : RowId → Store → Type 0
IsFree source_run_id s =
    All (λ job. (job.source_run_id == source_run_id && is_active job.status) ≡ false) s.jobs

module _ (req : Start) (run row : SourceRun) (s : Store) where
  queue_job-Follows :
      IsSound s
      → owned_run req.user req.session_id req.source_run_id s ≡ some row
      → is_terminal row.status ≡ false
      → IsFree req.source_run_id s
      → any (λ job. job.job_id == req.job_id) s.jobs ≡ false
      → Follows s (queue_job req run s)
  unfolding append_event
  queue_job-Follows v found live free fresh =
      Follows-of s _
        (update_where-IsKeyed run_key _ (queue_run run) (λ x. refl) s.runs v.runs_keyed)
        (IsKeyed-snoc job_key s.jobs (new_job req run) v.jobs_keyed fresh)
        (All-append _ s.jobs (new_job req run ∷ [])
          (update_where-IsLinked _ (queue_run run) (λ x. refl) s.runs s.jobs v.linked)
          (
            any_key-update_where run_key _ (queue_run run) (λ x. refl) req.source_run_id s.runs
                ∙ ground (arith, found_key s.runs found),
            tt,
          ))
        (Evolves-update_where (IsRow s row) _ (queue_run run) hit miss s.runs
          (rows-IsRow s (owns_run req.user req.session_id req.source_run_id s) row v found))
    where
      found_key :
          (runs : List SourceRun)
          → find (owns_run req.user req.session_id req.source_run_id s) runs ≡ some row
          → any (has_key_of run_key req.source_run_id) runs ≡ true
      found_key [] e = absurd (ground arith)
      found_key (x ∷ runs) e = ground (arith, found_key runs)

      hit :
          (x : SourceRun)
          → (x.source_run_id == req.source_run_id) ≡ true
          → IsRow s row x
          → Lives s.jobs (s.jobs ++ new_job req run ∷ []) x (queue_run run x)
      hit x e ((p, h), only) = record {
        same_id = refl;
        before = p;
        after = reached.0;
        in_before = h;
        in_after = rw (waits, runs) reached.1.0;
        way = reached.1.1;
      }
        where
          same : x ≡ row
          same = only (
              ground (
                arith,
                find-eq-some (owns_run req.user req.session_id req.source_run_id s) s.runs row
                    found,
              ))

          reached :
              Reaches p queued
                (count (waits_for x.source_run_id) s.jobs + 1)
                (count (runs_for x.source_run_id) s.jobs)
          reached =
              start_counts p x.status _ _ h (rw same live)
                (count_of_all _ s.jobs (All-map s.jobs (λ job k. ground arith) free))
                (count_of_all _ s.jobs (All-map s.jobs (λ job k. ground arith) free))

          waits :
              count (waits_for x.source_run_id) (s.jobs ++ new_job req run ∷ [])
              ≡ count (waits_for x.source_run_id) s.jobs + 1
          waits =
              ground (arith, count-append (waits_for x.source_run_id) s.jobs (new_job req run ∷ []))

          runs :
              count (runs_for x.source_run_id) (s.jobs ++ new_job req run ∷ [])
              ≡ count (runs_for x.source_run_id) s.jobs
          runs =
              ground (arith, count-append (runs_for x.source_run_id) s.jobs (new_job req run ∷ []))

      miss :
          (x : SourceRun)
          → (x.source_run_id == req.source_run_id) ≡ false
          → IsRow s row x
          → Lives s.jobs (s.jobs ++ new_job req run ∷ []) x x
      miss x e h =
          let waits : count (waits_for x.source_run_id) (s.jobs ++ new_job req run ∷ [])
              ≡ count (waits_for x.source_run_id) s.jobs =
            ground
              (arith, count-append (waits_for x.source_run_id) s.jobs (new_job req run ∷ [])) in
          let runs : count (runs_for x.source_run_id) (s.jobs ++ new_job req run ∷ [])
              ≡ count (runs_for x.source_run_id) s.jobs =
            ground (arith, count-append (runs_for x.source_run_id) s.jobs (new_job req run ∷ [])) in
          Lives-stays x x h.0 refl (rw (waits, runs) refl)

-- What a start that finds no job knows.
no_job : (req : Start) (s : Store) → first (existing_jobs req s) ≡ none → IsFree req.source_run_id s
no_job req s e =
    All-map s.jobs (λ job h. ground (arith, h))
      (All-any _ s.jobs (first-sort-select (λ x y. ltb x.created_at y.created_at) _ s.jobs e))

pub start_queued-Follows : (req : Start) (s : Store) → IsSound s → Follows s (start_queued req s).1
unfolding start_queued
start_queued-Follows req s v =
    elim (Option-cases (owned_run req.user req.session_id req.source_run_id s)) [
      | inl e ↦ rw e (Follows-refl s v)
      | inr (row, e) ↦ rw e (
          ground (
            arith,
            Follows-refl s v,
            queue_job-Follows req row row s v e,
            queue_job-Follows req (released row) row s v e,
            no_job req s,
          ))
    ]
